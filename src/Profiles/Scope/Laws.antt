-- ===== src/Profiles/Scope/Laws.antt =====
-- src/profile_store.rs: what the tests of texts and identities accept, and that a path names one
-- store of one profile.
pub mod Identity
use mnemes.Prelude.{
  ℕ, String, ◌<◌, ◌≤◌, ◌≡◌, ◌≢◌, refl, sym, ap, ◌∙◌, ◌>>=◌, ◌>>◌, ◌!=◌, ◌↔◌, ◌⊎◌, inl, inr, Bool,
  true, false, not, ◌&&◌, ◌||◌, List, [], ◌∷◌, ◌++◌, arith, length, is_empty, any, all, All, ltb,
  list_beq, list_eq, ok, err, Result, >>=-eq-ok, then_iff, reject_if, reject_ne_iff, append_cancel,
  reject_unless_iff, or_iff,
}
use mathlib.Core.Path.{subst}
use mathlib.Core.Bool.{false≢true}
use mnemes.Prelude.Bytes.{Bytes}
use mnemes.Prelude.Text.{Text, as_bytes, trim, is_control}
use mnemes.Error.{MnemesError}
use mnemes.Profiles.Scope.{
  Verdict, validate_text, check_id_bytes, is_id_byte, MemoryProfileId, parse_profile_id,
  profile_root, separator, canonical_memory_store_relative_path, MemoryStoreIdentity,
  store_identity_new, store_identity_validate, MemoryStoreStatus, check_relative, is_absolute,
  has_parent_dir,
}

-- A text of the profiles: not empty, at most `max` bytes, and no control character.
pub record IsScopeText (max : ℕ) (t : Text) : Type 0 where
  pub present : 0 < length t
  pub short : length (as_bytes t) ≤ max
  pub printable : All (λ c. is_control c ≡ false) t

any_iff : (p : ℕ → Bool) (t : Text) → (any p t ≡ false) ↔ All (λ c. p c ≡ false) t
any_iff p [] = (λ h. tt, λ h. refl)
any_iff p (c ∷ t) = ground (arith, any_iff p t)

present_iff : (t : Text) → (is_empty t ≡ false) ↔ (0 < length t)
present_iff [] = (λ h. cc, λ h. absurd (omega arith))
present_iff (c ∷ t) = (λ h. omega arith, λ h. refl)

short_iff : (n max : ℕ) → (ltb max n ≡ false) ↔ (n ≤ max)
short_iff n max = ground arith

pub validate_text_iff :
    (t : Text) (field : String) (max : ℕ) → (validate_text t field max ≡ ok tt) ↔ IsScopeText max t
unfolding validate_text
validate_text_iff t field max =
    let steps = then_iff _ _ (reject_unless_iff (is_empty t) _ (present_iff t)) (
      then_iff _ _ (reject_unless_iff _ _ (short_iff (length (as_bytes t)) max))
        (reject_unless_iff (any is_control t) _ (any_iff is_control t))) in
    (
      λ h. let (p, (s, c)) = steps.0 h in record { present = p; short = s; printable = c },
      λ w. steps.1 (w.present, (w.short, w.printable)),
    )

-- No separator among the bytes of an identity.
id_bytes-All : (bs : Bytes) → all is_id_byte bs ≡ true → All (λ b. is_id_byte b ≡ true) bs
id_bytes-All [] h = tt
id_bytes-All (b ∷ bs) h = ground (arith, id_bytes-All bs)

id_bytes_rest :
    (xs ys : Bytes) → All (λ b. is_id_byte b ≡ true) (xs ++ ys) → All (λ b. is_id_byte b ≡ true) ys
id_bytes_rest [] ys h = h
id_bytes_rest (x ∷ xs) ys h = id_bytes_rest xs ys h.1

as_bytes-separator : (s : Text) → as_bytes (separator ∷ s) ≡ separator ∷ as_bytes s
unfolding as_bytes
as_bytes-separator s = refl

abbrev IsIdText : Text → Type 0
IsIdText t = All (λ b. is_id_byte b ≡ true) (as_bytes t)

head_separator : (s : Text) → IsIdText (separator ∷ s) → ⊥
unfolding as_bytes
head_separator s h = false≢true h.0

no_separator : (t : Text) → IsIdText t → All (λ c. c ≢ separator) t
no_separator [] h = tt
no_separator (c ∷ t) h =
    (λ e. head_separator t (subst (λ d. IsIdText (d ∷ t)) e h), no_separator t (rest c t h))
  where
    rest : (c : ℕ) (t : Text) → IsIdText (c ∷ t) → IsIdText t
    rest c t h = unfold as_bytes in id_bytes_rest _ (as_bytes t) h

pub check_id_bytes_sound :
    (t : Text) (field : String) → check_id_bytes t field ≡ ok tt → All (λ c. c ≢ separator) t
unfolding check_id_bytes
check_id_bytes_sound t field h =
    no_separator t (id_bytes-All (as_bytes t) (go (all is_id_byte (as_bytes t)) _ h))
  where
    go : (b : Bool) (x : MnemesError) → reject_if (not b) x ≡ ok tt → b ≡ true
    go true x h = refl
    go false x h = cc

-- The first separator splits a text in one way.
first_separator :
    (xs ys : Text) {s t : Text}
    → All (λ c. c ≢ separator) xs
    → All (λ c. c ≢ separator) ys
    → xs ++ (separator ∷ s) ≡ ys ++ (separator ∷ t)
    → (xs ≡ ys) × (s ≡ t)
first_separator [] [] hx hy h = (refl, cc)
first_separator [] (y ∷ ys) hx hy h = let e : y ≡ separator = cc in absurd (hy.0 e)
first_separator (x ∷ xs) [] hx hy h = let e : x ≡ separator = cc in absurd (hx.0 e)
first_separator (x ∷ xs) (y ∷ ys) hx hy h =
    let e : x ≡ y = cc in
    let rest = first_separator xs ys hx.1 hy.1 cc in
    (ap (λ c. c ∷ xs) e ∙ ap (λ zs. y ∷ zs) rest.0, rest.1)

parsed_no_separator :
    (value : Text) {p : MemoryProfileId}
    → parse_profile_id value ≡ ok p
    → All (λ c. c ≢ separator) p.as_str
unfolding parse_profile_id
parsed_no_separator value {p} h =
    let (u, _, rest) = >>=-eq-ok (validate_text (trim value) _ _) _ h in
    let (v, ids, last) = >>=-eq-ok (check_id_bytes (trim value) _) _ rest in
    let e : trim value ≡ p.as_str = as_str_of last in
    subst (All (λ c. c ≢ separator)) e (check_id_bytes_sound (trim value) _ ids)
  where
    as_str_of :
        {t : Text} {q : MemoryProfileId}
        → ◌≡◌ {A = Result MnemesError MemoryProfileId} (ok (record { as_str = t })) (ok q)
        → t ≡ q.as_str
    as_str_of h = ap str h
      where
        str : Result MnemesError MemoryProfileId → Text
        str (err e) = []
        str (ok q) = q.as_str

path_text :
    (p : MemoryProfileId) (s : Text) {path : Text}
    → canonical_memory_store_relative_path p s ≡ ok path
    → path ≡ profile_root ++ (p.as_str ++ (separator ∷ s))
unfolding canonical_memory_store_relative_path
path_text p s h =
    let (u, _, rest) = >>=-eq-ok (validate_text s _ _) _ h in
    let (v, _, last) = >>=-eq-ok (check_id_bytes s _) _ rest in cc

-- A canonical path names one store of one profile: profiles whose identities parsed, and store ids,
-- that have one path are the same.
pub canonical_path_injective :
    (a b s t : Text) {p q : MemoryProfileId} {path : Text}
    → parse_profile_id a ≡ ok p
    → parse_profile_id b ≡ ok q
    → canonical_memory_store_relative_path p s ≡ ok path
    → canonical_memory_store_relative_path q t ≡ ok path
    → (p ≡ q) × (s ≡ t)
canonical_path_injective a b s t {p} {q} hp hq hs ht =
    let same = sym (path_text p s hs) ∙ path_text q t ht in
    let inner = (append_cancel profile_root profile_root refl same).1 in
    let (ids, stores) =
      first_separator p.as_str q.as_str (parsed_no_separator a hp) (parsed_no_separator b hq)
        inner in
    (ap (λ i. record { as_str = i }) ids, stores)
