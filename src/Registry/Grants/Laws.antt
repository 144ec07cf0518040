-- ===== src/Registry/Grants/Laws.antt =====
-- src/store.rs: a grant that is recorded reads back as it was given, and a revoked one opens nothing.
use mnemes.Prelude.{
  ℕ, ◌^◌, ◌-◌, ◌+◌, ◌<◌, ◌≡◌, ◌≢◌, refl, sym, ap, ◌∙◌, ◌⊎◌, inl, inr, Bool, true, false, Bool-cases,
  not, ◌&&◌, Option, Option-cases, none, some, List, [], ◌∷◌, map, All, arith, ltb, list_eq,
  list_beq_iff, ok, >>=-eq-ok, ok_injective,
}
use mathlib.Core.Path.{subst}
use mnemes.Prelude.Text.{Text}
use mnemes.Prelude.Int.{ℤ, pos, negsuc, ltb_ℤ, as_i64}
use mnemes.Prelude.Sort.{All-sort_by}
use mnemes.Profiles.Scope.{MemoryProfileId, parse_profile_id}
use mnemes.Profiles.Access.{MemoryAccessGrant, MemoryAccessEffect, allows}
use mnemes.Registry.{GrantRow, Tables, select}
use mnemes.Registry.Grants.{
  grant_memory_access, revoke_memory_access, grant_to_row, row_to_grant, checks, ends_later,
  map_option, read_revoked, is_open_grant, set_revoked, rows_to_grants,
  memory_grants_for_profile_store, is_grant_for, grant_row_le,
}

pub grant-effect :
    (now : Text) (g : MemoryAccessGrant) (db db' : Tables) (id : Text)
    → grant_memory_access now g db ≡ ok (id, db')
    → (id ≡ g.grant_id)
      × (checks (grant_to_row now g) ≡ true)
      × (record db { memory_access_grants = grant_to_row now g ∷ db.memory_access_grants } ≡ db')
unfolding grant_memory_access
grant-effect now g db db' id h = ground arith

-- The times of a grant as the source's u64 holds them.
pub record HasU64Times (g : MemoryAccessGrant) : Type 0 where
  pub from : g.valid_from < 2 ^ 64
  pub to : g.expires_at < 2 ^ 64
  pub revoked : (t : ℕ) → g.revoked_at ≡ some t → t < 2 ^ 64

as_i64-cases : (n : ℕ) → n < 2 ^ 64 → (as_i64 n ≡ pos n) ⊎ ((k : ℕ) × (as_i64 n ≡ negsuc k))
unfolding as_i64
as_i64-cases n small = elim (Bool-cases (ltb n (2 ^ 63))) [
  | inl h ↦ inl (rw h refl)
  | inr h ↦ inr (2 ^ 64 - (n + 1), rw h refl)
]

checks_read_back :
    (from to : ℤ) (revoked : Option ℤ) (a b : ℕ)
    → (not (ltb_ℤ from (pos 0)) && ltb_ℤ from to && ends_later revoked from) ≡ true
    → (from ≡ pos a) ⊎ ((k : ℕ) × (from ≡ negsuc k))
    → (to ≡ pos b) ⊎ ((k : ℕ) × (to ≡ negsuc k))
    → (from ≡ pos a) × (to ≡ pos b) × (ends_later revoked (pos a) ≡ true)
checks_read_back from to revoked a b h (inr (k, p)) q = let h' = rw p at h in cc
checks_read_back from to revoked a b h (inl p) (inr (k, q)) =
    let h' = rw (p, q) at h in ground arith
checks_read_back from to revoked a b h (inl p) (inl q) =
    let h' = rw (p, q) at h in (p, q, ground arith)

revoked_reads_back :
    (revoked : Option ℕ) (a : ℕ)
    → ((t : ℕ) → revoked ≡ some t → t < 2 ^ 64)
    → ends_later (map_option as_i64 revoked) (pos a) ≡ true
    → read_revoked (map_option as_i64 revoked) ≡ ok revoked
revoked_reads_back none a small h = refl
revoked_reads_back (some t) a small h = elim (as_i64-cases t (small t refl)) [
  | inl e ↦ rw e refl
  | inr (k, e) ↦ let h' = rw e at h in cc
]

row_reads_back :
    (now : Text) (g : MemoryAccessGrant)
    → HasU64Times g
    → parse_profile_id g.grantee_profile_id.as_str ≡ ok g.grantee_profile_id
    → checks (grant_to_row now g) ≡ true
    → row_to_grant (grant_to_row now g) ≡ ok (record g { created_at = now })
unfolding row_to_grant grant_to_row checks
row_reads_back now g times parsed checked =
    let (from, to, later) =
      checks_read_back (as_i64 g.valid_from) (as_i64 g.expires_at) (map_option as_i64 g.revoked_at)
        g.valid_from g.expires_at checked (as_i64-cases g.valid_from times.from)
        (as_i64-cases g.expires_at times.to) in
    let revoked = revoked_reads_back g.revoked_at g.valid_from times.revoked later in
    rw (parsed, from, to, revoked) refl

-- A grant that is recorded reads back as it was given, with the time of its record: the casts to
-- SQLite's integers lose nothing that the schema accepts.
pub grant-row_to_grant :
    (now : Text) (g : MemoryAccessGrant) (db db' : Tables) (id : Text)
    → HasU64Times g
    → parse_profile_id g.grantee_profile_id.as_str ≡ ok g.grantee_profile_id
    → grant_memory_access now g db ≡ ok (id, db')
    → (db'.memory_access_grants ≡ grant_to_row now g ∷ db.memory_access_grants)
      × (row_to_grant (grant_to_row now g) ≡ ok (record g { created_at = now }))
grant-row_to_grant now g db db' id times parsed h =
    let (e, checked, same) = grant-effect now g db db' id h in
    (
      ap (λ (t : Tables). t.memory_access_grants) (sym same),
      row_reads_back now g times parsed checked,
    )

-- No row of the id is open any more.
abbrev pub IsClosed : Text → GrantRow → Type 0
IsClosed id r = r.grant_id ≡ id → r.revoked_at ≢ none

set_revoked-IsClosed : (id : Text) (t : ℤ) (r : GrantRow) → IsClosed id (set_revoked id t r)
unfolding set_revoked is_open_grant
set_revoked-IsClosed id t r same dead =
    let exact = list_beq_iff r.grant_id id in ground (arith, exact)

map-IsClosed :
    (id : Text) (t : ℤ) (rs : List GrantRow) → All (IsClosed id) (map (set_revoked id t) rs)
map-IsClosed id t [] = tt
map-IsClosed id t (r ∷ rs) = (set_revoked-IsClosed id t r, map-IsClosed id t rs)

All-select {ℓ} :
    {A : Type ℓ} (P : A → Type 0) (test : A → Bool) (xs : List A)
    → All P xs
    → All P (select test xs)
unfolding select
All-select P test [] h = tt
All-select P test (x ∷ xs) h = elim (Bool-cases (test x)) [
  | inl e ↦ rw e (h.0, All-select P test xs h.1)
  | inr e ↦ rw e (All-select P test xs h.1)
]

-- Such a grant is no longer alive.
abbrev pub IsDead : Text → MemoryAccessGrant → Type 0
IsDead id g = g.grant_id ≡ id → g.revoked_at ≢ none

read_revoked-none : (o : Option ℤ) → read_revoked o ≡ ok none → o ≡ none
read_revoked-none o h = ground arith

row_to_grant-fields :
    (r : GrantRow) (g : MemoryAccessGrant)
    → row_to_grant r ≡ ok g
    → (g.grant_id ≡ r.grant_id) × (read_revoked r.revoked_at ≡ ok g.revoked_at)
unfolding row_to_grant
row_to_grant-fields r g h = ground arith

rows-IsDead :
    (id : Text) (rs : List GrantRow) (gs : List MemoryAccessGrant)
    → All (IsClosed id) rs
    → rows_to_grants rs ≡ ok gs
    → All (IsDead id) gs
unfolding rows_to_grants
rows-IsDead id [] gs closed h = subst (All (IsDead id)) (ok_injective h) tt
rows-IsDead id (r ∷ rs) gs closed h =
    let (g, read, h1) = >>=-eq-ok (row_to_grant r) _ h in
    let (rest, reads, h2) = >>=-eq-ok (rows_to_grants rs) _ h1 in
    let (same, revoked) = row_to_grant-fields r g read in
    subst (All (IsDead id)) (ok_injective h2) (
      λ i dead. closed.0 (sym same ∙ i) (read_revoked-none r.revoked_at (revoked ∙ ap ok dead)),
      rows-IsDead id rs rest closed.1 reads,
    )

revoke-effect :
    (id : Text) (at : ℕ) (db db' : Tables)
    → revoke_memory_access id at db ≡ ok (tt, db')
    → record db { memory_access_grants = map (set_revoked id (as_i64 at)) db.memory_access_grants }
      ≡ db'
unfolding revoke_memory_access
revoke-effect id at db db' h = ground arith

dead_grant :
    (id : Text) (g : MemoryAccessGrant) (effect : MemoryAccessEffect) (namespace : Text) (at : ℕ)
    → IsDead id g
    → g.grant_id ≡ id
    → allows g effect namespace at ≡ false
unfolding allows
dead_grant id g effect namespace at dead same = elim (Option-cases g.revoked_at) [
  | inl e ↦ absurd (dead same e)
  | inr (t, e) ↦ rw e refl
]

-- Once a grant is revoked, no grant with its id that is read back allows anything, whoever asks for
-- whichever store, effect, namespace and time: not even a time before the revocation.
pub revoke-allows :
    (id : Text) (t : ℕ) (db db' : Tables) (requester : MemoryProfileId) (store_id : Text)
    (gs : List MemoryAccessGrant) (effect : MemoryAccessEffect) (namespace : Text) (at : ℕ)
    → revoke_memory_access id t db ≡ ok (tt, db')
    → memory_grants_for_profile_store requester store_id db' ≡ ok gs
    → All (λ g. g.grant_id ≡ id → allows g effect namespace at ≡ false) gs
unfolding memory_grants_for_profile_store
revoke-allows id t db db' requester store_id gs effect namespace at h read =
    let closed : All (IsClosed id) db'.memory_access_grants =
      subst (λ (x : Tables). All (IsClosed id) x.memory_access_grants) (revoke-effect id t db db' h)
        (map-IsClosed id (as_i64 t) db.memory_access_grants) in
    All-map-to gs (
      rows-IsDead id _ gs
        (All-sort_by grant_row_le (IsClosed id) _ (
          All-select (IsClosed id) (is_grant_for requester store_id) db'.memory_access_grants
            closed))
        read)
  where
    All-map-to :
        (gs : List MemoryAccessGrant)
        → All (IsDead id) gs
        → All (λ g. g.grant_id ≡ id → allows g effect namespace at ≡ false) gs
    All-map-to [] h = tt
    All-map-to (g ∷ gs) h = (dead_grant id g effect namespace at h.0, All-map-to gs h.1)
