-- ===== src/Replication/TrustedKey/Registry.antt =====
-- src/replication/trusted_key.rs: an admitted key is never replaced.
use mathlib.Core.Path.{subst₂}
use mnemes.Prelude.{
  ℕ, ◌≡◌, refl, ◌≢◌, ◌⊎◌, inl, inr, Bool, true, false, ◌&&◌, Option, none, some, List, [], ◌∷◌,
  ◌++◌, arith, ◌==◌, nat_eq, list_eq, list_beq_iff, if◌then◌else◌, ok, ap, sym, ◌∙◌, Option-cases,
}
use mnemes.Prelude.Text.{Text}
use mnemes.Replication.TrustedKey.{
  TrustedKeyRecord, TrustedKeyRegistry, find_key, lookup, try_admit,
}

or_else : Option TrustedKeyRecord → Option TrustedKeyRecord → Option TrustedKeyRecord
or_else (some r) o = some r
or_else none o = o

find_key-append :
    (p : Text) (v : ℕ) (ks : List TrustedKeyRecord) (r : TrustedKeyRecord)
    → find_key p v (ks ++ r ∷ [])
      ≡ or_else
          (find_key p v ks)
          (if r.signer_principal_id == p && r.signer_key_version == v then some r else none)
unfolding find_key or_else
find_key-append p v [] r = refl
find_key-append p v (k ∷ ks) r = ground (arith, find_key-append p v ks r)

find_key_matches :
    (p : Text) (v : ℕ) (ks : List TrustedKeyRecord) (r : TrustedKeyRecord)
    → find_key p v ks ≡ some r
    → (r.signer_principal_id ≡ p) × (r.signer_key_version ≡ v)
unfolding find_key
find_key_matches p v [] r h = cc
find_key_matches p v (k ∷ ks) r h =
    ground (arith, list_beq_iff k.signer_principal_id p, find_key_matches p v ks r)

refused :
    (g : TrustedKeyRegistry) (r k : TrustedKeyRecord)
    → lookup g r.signer_principal_id r.signer_key_version ≡ some k
    → (lookup g r.signer_principal_id r.signer_key_version ≢ none)
      × ((try_admit g r).0 ≢ ok tt)
      × ((try_admit g r).1 ≡ g)
unfolding try_admit lookup
refused g r k h = rw h (λ e. cc, λ e. cc, refl)

pushed :
    (g : TrustedKeyRegistry) (r : TrustedKeyRecord)
    → lookup g r.signer_principal_id r.signer_key_version ≡ none
    → try_admit g r ≡ (ok tt, record { keys = g.keys ++ r ∷ [] })
unfolding try_admit lookup
pushed g r h = rw h

last_found :
    (b : Bool) (o : Option TrustedKeyRecord) (r : TrustedKeyRecord)
    → (b ≡ true → o ≡ none)
    → or_else o (if b then some r else none) ≡ (if b then some r else o)
unfolding or_else
last_found true o r h = rw (h refl)
last_found false none r h = refl
last_found false (some k) r h = refl

same_name :
    (r : TrustedKeyRecord) (p : Text) (v : ℕ)
    → (r.signer_principal_id == p && r.signer_key_version == v) ≡ true
    → (r.signer_principal_id ≡ p) × (r.signer_key_version ≡ v)
same_name r p v h = ground (arith, list_beq_iff r.signer_principal_id p)

found_after :
    (g : TrustedKeyRegistry) (r : TrustedKeyRecord) (p : Text) (v : ℕ)
    → find_key r.signer_principal_id r.signer_key_version g.keys ≡ none
    → find_key p v (g.keys ++ r ∷ []) ≡ (
        if r.signer_principal_id == p && r.signer_key_version == v
        then some r
        else find_key p v g.keys)
found_after g r p v h =
    find_key-append p v g.keys r
    ∙ last_found _ (find_key p v g.keys) r λ b.
      let (ep, ev) = same_name r p v b in subst₂ (λ p' v'. find_key p' v' g.keys ≡ none) ep ev h

-- An admission is refused exactly when the principal and version are taken, and then changes
-- nothing; otherwise the new record is found under its own name, and every other lookup is as it was.
pub try_admit_lem :
    (g : TrustedKeyRegistry) (r : TrustedKeyRecord) (p : Text) (v : ℕ)
    → ((lookup g r.signer_principal_id r.signer_key_version ≢ none)
        × ((try_admit g r).0 ≢ ok tt)
        × ((try_admit g r).1 ≡ g))
      ⊎ ((lookup g r.signer_principal_id r.signer_key_version ≡ none)
          × ((try_admit g r).0 ≡ ok tt)
          × (lookup (try_admit g r).1 p v ≡ (
              if r.signer_principal_id == p && r.signer_key_version == v
              then some r
              else lookup g p v)))
unfolding lookup
try_admit_lem g r p v = elim (Option-cases (lookup g r.signer_principal_id r.signer_key_version)) [
  | inl free ↦
      let e = pushed g r free in inr (free, ap (λ x. x.0) e, rw e (found_after g r p v free))
  | inr (k, taken) ↦ inl (refused g r k taken)
]

-- The registry after a sequence of admissions, refused or not.
abbrev pub admit_all : TrustedKeyRegistry → List TrustedKeyRecord → TrustedKeyRegistry
admit_all g [] = g
admit_all g (r ∷ rs) = admit_all (try_admit g r).1 rs

kept :
    (g : TrustedKeyRegistry) (r k : TrustedKeyRecord) (p : Text) (v : ℕ)
    → lookup g p v ≡ some k
    → lookup (try_admit g r).1 p v ≡ some k
unfolding lookup
kept g r k p v h = elim (try_admit_lem g r p v) [
  | inl (_, _, same) ↦ rw same h
  | inr (free, _, now) ↦
      now ∙ go (r.signer_principal_id == p && r.signer_key_version == v) refl free
]
  where
    go :
        (b : Bool)
        → (r.signer_principal_id == p && r.signer_key_version == v) ≡ b
        → find_key r.signer_principal_id r.signer_key_version g.keys ≡ none
        → (if b then some r else find_key p v g.keys) ≡ some k
    go true e free =
        let (ep, ev) = same_name r p v e in
        let taken : find_key r.signer_principal_id r.signer_key_version g.keys ≡ some k =
          subst₂ (λ p' v'. find_key p' v' g.keys ≡ some k) (sym ep) (sym ev) h in
        cc
    go false e free = h

-- Whatever is admitted later, a key that has been admitted is found unchanged.
pub lookup-admit_all :
    (g : TrustedKeyRegistry) (rs : List TrustedKeyRecord) (k : TrustedKeyRecord) (p : Text) (v : ℕ)
    → lookup g p v ≡ some k
    → lookup (admit_all g rs) p v ≡ some k
lookup-admit_all g [] k p v h = h
lookup-admit_all g (r ∷ rs) k p v h = lookup-admit_all (try_admit g r).1 rs k p v (kept g r k p v h)
