-- ===== src/Prelude/Sort.antt =====
-- `slice::sort_by` (and `ORDER BY`): a stable sort, by insertion, in an order given by its `<=` test;
-- and `Vec::dedup`.
use Prim.Native.Nat.{ℕ, suc}
use native.Mathlib.Omega.{arith}
use mathlib.Core.Path.{◌≡◌, refl}
use mathlib.Core.Logic.{◌↔◌, ◌⊎◌, inl, inr}
use mathlib.Core.Bool.{Bool, true, false, ◌||◌, ◌&&◌}
use mathlib.Core.List.{List, [], ◌∷◌}
use mnemes.Prelude.Tests.{ltb, nat_beq, list_eq, ◌==◌, Bool-cases, if◌then◌else◌}
use mnemes.Prelude.Text.{Text, as_bytes}
use mnemes.Prelude.Lists.{Any, All, All-imp, length}

-- The order of strings: byte by byte.
unfoldable pub bytes_le : List ℕ → List ℕ → Bool
bytes_le [] ys = true
bytes_le (x ∷ xs) [] = false
bytes_le (x ∷ xs) (y ∷ ys) = ltb x y || nat_beq x y && bytes_le xs ys

-- `str::cmp`: texts are compared by their bytes.
abbrev pub text_le : Text → Text → Bool
text_le a b = bytes_le (as_bytes a) (as_bytes b)

-- `Vec::dedup` of texts: an element that equals the one before it goes.
unfoldable pub dedup : List Text → List Text
dedup [] = []
dedup (x ∷ []) = x ∷ []
dedup (x ∷ y ∷ xs) = let rest = dedup (y ∷ xs) in if x == y then rest else x ∷ rest

pub bytes_le_total : (xs ys : List ℕ) → (bytes_le xs ys ≡ true) ⊎ (bytes_le ys xs ≡ true)
unfolding bytes_le
bytes_le_total [] ys = inl refl
bytes_le_total (x ∷ xs) [] = inr refl
bytes_le_total (x ∷ xs) (y ∷ ys) = ground (arith, bytes_le_total xs ys)

pub bytes_le_trans :
    (xs ys zs : List ℕ) → bytes_le xs ys ≡ true → bytes_le ys zs ≡ true → bytes_le xs zs ≡ true
unfolding bytes_le
bytes_le_trans [] ys zs h k = refl
bytes_le_trans (x ∷ xs) [] zs h k = cc
bytes_le_trans (x ∷ xs) (y ∷ ys) [] h k = cc
bytes_le_trans (x ∷ xs) (y ∷ ys) (z ∷ zs) h k = ground (arith, bytes_le_trans xs ys zs)

pub text_le_trans : (a b c : Text) → text_le a b ≡ true → text_le b c ≡ true → text_le a c ≡ true
text_le_trans a b c h k = bytes_le_trans (as_bytes a) (as_bytes b) (as_bytes c) h k

pub text_le_refl : (a : Text) → text_le a a ≡ true
text_le_refl a = elim (bytes_le_total (as_bytes a) (as_bytes a)) [ inl h ↦ h | inr h ↦ h ]

-- Each element stands in the relation to all after it.
abbrev pub Pairwise {ℓ} : {A : Type ℓ} → (A → A → Type 0) → List A → Type 0
Pairwise R [] = Unit
Pairwise R (x ∷ xs) = All (R x) xs × Pairwise R xs

module _ {ℓ} {A : Type ℓ} (le : A → A → Bool) where
  unfoldable pub insert_by : A → List A → List A
  insert_by x [] = x ∷ []
  insert_by x (y ∷ ys) = if le x y then x ∷ y ∷ ys else y ∷ insert_by x ys

  unfoldable pub sort_by : List A → List A
  sort_by [] = []
  sort_by (x ∷ xs) = insert_by x (sort_by xs)

  Any-insert_by : (P : A → Type 0) (x : A) (xs : List A) → Any P (insert_by x xs) ↔ (P x ⊎ Any P xs)
  unfolding insert_by
  Any-insert_by P x [] = (λ h. h, λ h. h)
  Any-insert_by P x (y ∷ ys) = go (le x y) (Any-insert_by P x ys)
    where
      go :
          (b : Bool)
          → Any P (insert_by x ys) ↔ (P x ⊎ Any P ys)
          → Any P (if b then x ∷ y ∷ ys else y ∷ insert_by x ys) ↔ (P x ⊎ Any P (y ∷ ys))
      go true ih = (λ h. h, λ h. h)
      go false ih = (
        λ h. elim h [
          | inl p ↦ inr (inl p)
          | inr q ↦ elim (ih.0 q) [ inl r ↦ inl r | inr s ↦ inr (inr s) ]
        ],
        λ h. elim h [
          | inl r ↦ inr (ih.1 (inl r))
          | inr q ↦ elim q [ inl p ↦ inl p | inr s ↦ inr (ih.1 (inr s)) ]
        ],
      )

  pub Any-sort_by : (P : A → Type 0) (xs : List A) → Any P (sort_by xs) ↔ Any P xs
  unfolding sort_by
  Any-sort_by P [] = (λ h. h, λ h. h)
  Any-sort_by P (x ∷ xs) =
      let here = Any-insert_by P x (sort_by xs) in
      let there = Any-sort_by P xs in
      (
        λ h. elim (here.0 h) [ inl p ↦ inl p | inr q ↦ inr (there.0 q) ],
        λ h. elim h [ inl p ↦ here.1 (inl p) | inr q ↦ here.1 (inr (there.1 q)) ],
      )

  All-insert_by {κ} :
      (P : A → Type κ) (x : A) (xs : List A) → P x → All P xs → All P (insert_by x xs)
  unfolding insert_by
  All-insert_by P x [] p q = (p, tt)
  All-insert_by P x (y ∷ ys) p q = go (le x y) (All-insert_by P x ys p q.1)
    where
      go :
          (b : Bool) → All P (insert_by x ys) → All P (if b then x ∷ y ∷ ys else y ∷ insert_by x ys)
      go true ih = (p, q)
      go false ih = (q.0, ih)

  pub All-sort_by {κ} : (P : A → Type κ) (xs : List A) → All P xs → All P (sort_by xs)
  unfolding sort_by
  All-sort_by P [] h = tt
  All-sort_by P (x ∷ xs) h = All-insert_by P x (sort_by xs) h.0 (All-sort_by P xs h.1)

  length-insert_by : (x : A) (xs : List A) → length (insert_by x xs) ≡ suc (length xs)
  unfolding insert_by
  length-insert_by x [] = refl
  length-insert_by x (y ∷ ys) = ground (arith, length-insert_by x ys)

  pub length-sort_by : (xs : List A) → length (sort_by xs) ≡ length xs
  unfolding sort_by
  length-sort_by [] = refl
  length-sort_by (x ∷ xs) = omega (arith, length-insert_by x (sort_by xs), length-sort_by xs)

  -- Each element before the next.
  abbrev pub Ascending : List A → Type 0
  Ascending [] = Unit
  Ascending (x ∷ []) = Unit
  Ascending (x ∷ y ∷ ys) = (le x y ≡ true) × Ascending (y ∷ ys)

  module _ (total : (x y : A) → (le x y ≡ true) ⊎ (le y x ≡ true)) where
    insert_by-Ascending : (x : A) (ys : List A) → Ascending ys → Ascending (insert_by x ys)
    unfolding insert_by
    insert_by-Ascending x [] h = tt
    insert_by-Ascending x (y ∷ ys) h = elim (Bool-cases (le x y)) [
      | inl e ↦ rw e (e, h)
      | inr e ↦
          rw e (behind y ys h (insert_by-Ascending x ys (rest y ys h)) (before y x (total x y) e))
    ]
      where
        before : (y x : A) → (le x y ≡ true) ⊎ (le y x ≡ true) → le x y ≡ false → le y x ≡ true
        before y x (inl p) e = cc
        before y x (inr p) e = p

        rest : (y : A) (ys : List A) → Ascending (y ∷ ys) → Ascending ys
        rest y [] h = tt
        rest y (z ∷ zs) h = h.1

        behind :
            (y : A) (ys : List A)
            → Ascending (y ∷ ys)
            → Ascending (insert_by x ys)
            → le y x ≡ true
            → Ascending (y ∷ insert_by x ys)
        behind y [] h ih e = (e, tt)
        behind y (z ∷ zs) h ih e = elim (Bool-cases (le x z)) [
          | inl e' ↦ let ih' = rw e' at ih in rw e' (e, ih')
          | inr e' ↦ let ih' = rw e' at ih in rw e' (h.0, ih')
        ]

    pub sort_by-Ascending : (xs : List A) → Ascending (sort_by xs)
    unfolding sort_by
    sort_by-Ascending [] = tt
    sort_by-Ascending (x ∷ xs) = insert_by-Ascending x (sort_by xs) (sort_by-Ascending xs)

  -- In a list that ascends, each element stands to all after it in whatever the test implies.
  module _ (R : A → A → Type 0) (sound : (x y : A) → le x y ≡ true → R x y)
      (trans : (x y z : A) → R x y → R y z → R x z) where
    pub Ascending-Pairwise : (xs : List A) → Ascending xs → Pairwise R xs
    Ascending-Pairwise [] h = tt
    Ascending-Pairwise (x ∷ []) h = (tt, tt)
    Ascending-Pairwise (x ∷ y ∷ ys) h =
        let rest = Ascending-Pairwise (y ∷ ys) h.1 in
        let first = sound x y h.0 in ((first, All-imp ys (λ z r. trans x y z first r) rest.0), rest)
