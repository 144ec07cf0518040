-- ===== src/Registry/Snapshots/Admission.antt =====
-- src/store.rs: what one turn of the loop over the stores admits to a snapshot.
use mnemes.Prelude.{
  ℕ, ◌<◌, ◌≤◌, ◌≡◌, refl, sym, ap, ◌∙◌, ◌↔◌, ◌⊎◌, inl, inr, Bool, true, Bool-cases, Option, none,
  some, List, [], ◌∷◌, map, All, All-imp, All-map, Any, arith, list_eq, ◌==◌, Result, ok, err,
  >>=-eq-ok, ok_injective,
}
use mathlib.Core.Path.{subst}
use mnemes.Prelude.Text.{Text}
use mnemes.Prelude.Sort.{All-sort_by, sort_by, text_le, dedup}
use mnemes.Error.{MnemesError}
use mnemes.Profiles.Scope.{MemoryProfileId, MemoryStoreIdentity, parse_profile_id}
use mnemes.Profiles.Access.{MemoryAccessGrant, MemoryAccessEffect, allows, authorize_memory_access}
use mnemes.Profiles.Access.Laws.{MayAccess, authorize_memory_access_iff}
use mnemes.Profiles.Binding.{ActorProfileBinding}
use mnemes.Profiles.Snapshot.{AuthorizedMemoryStore, with_sorted_grants, sorted_ids}
use mnemes.Registry.{select}
use mnemes.Registry.Grants.{memory_grants_for_profile_store}
use mnemes.Registry.Snapshots.{
  Reads, is_open_store, min, min_expiry, to_authorized, subject, is_requested, decide_store,
  admit_store,
}

some_injective : {A : Type 0} {a b : A} → ◌≡◌ {A = Option A} (some a) (some b) → a ≡ b
some_injective h = cc

-- A grant with the id allows the access.
abbrev pub IsGrantOf : MemoryAccessEffect → Text → ℕ → List MemoryAccessGrant → Text → Type 0
IsGrantOf effect namespace at grants id =
    Any (λ g. (g.grant_id ≡ id) × (allows g effect namespace at ≡ true)) grants

-- A store that is admitted: a stored, open one that was asked for, as the read of the stores has it,
-- which the binding's profile may access by the grants that are stored when they are read for it; each grant that is named allows the access, and the
-- authorization ends later than now and no later than the binding.
pub record IsAuthorized (reads : Reads) (binding : ActorProfileBinding)
    (effect : MemoryAccessEffect) (requested : List Text) (at : ℕ) (a : AuthorizedMemoryStore)
    : Type 0 where
  pub store : MemoryStoreIdentity
  pub stored : Any (λ s. s ≡ store) reads.stores.memory_stores
  pub is_open : is_open_store reads.stores store ≡ true
  pub owner : parse_profile_id store.profile_id.as_str ≡ ok a.profile_id
  pub same_id : a.store_id ≡ store.store_id
  pub same_namespace : a.namespace ≡ store.namespace
  pub same_path : a.relative_path ≡ store.relative_path
  pub asked : is_requested requested a.namespace ≡ true
  pub grants : List MemoryAccessGrant
  pub granted :
      memory_grants_for_profile_store binding.profile_id store.store_id
        (reads.grants store.store_id)
      ≡ ok grants
  pub may :
      MayAccess binding.profile_id
        (subject binding)
        (record store { profile_id = a.profile_id })
        grants
        effect
        store.namespace
        at
  pub named : All (IsGrantOf effect store.namespace at grants) a.grant_ids
  pub ahead : at < a.authorization_expires_at
  pub bounded : a.authorization_expires_at ≤ binding.expires_at

pub min_lem : (a b : ℕ) → (min a b ≤ a) × (min a b ≤ b) × ((min a b ≡ a) ⊎ (min a b ≡ b))
unfolding min
min_lem a b = ground arith

allows_running :
    (g : MemoryAccessGrant) (effect : MemoryAccessEffect) (namespace : Text) (at : ℕ)
    → allows g effect namespace at ≡ true
    → at < g.expires_at
unfolding allows
allows_running g effect namespace at h = ground arith

min_expiry_ahead :
    (default at : ℕ) (gs : List MemoryAccessGrant)
    → at < default
    → All (λ g. at < g.expires_at) gs
    → at < min_expiry default gs
unfolding min_expiry
min_expiry_ahead default at [] h all = h
min_expiry_ahead default at (g ∷ []) h all = all.0
min_expiry_ahead default at (g ∷ g' ∷ gs) h all =
    let rest = min_expiry_ahead default at (g' ∷ gs) h all.1 in
    let (below, below', chosen) = min_lem g.expires_at (min_expiry default (g' ∷ gs)) in
    elim chosen [
      | inl e ↦ subst (λ n. at < n) (sym e) all.0
      | inr e ↦ subst (λ n. at < n) (sym e) rest
    ]

-- What is selected passes the test, and was there.
pub select-All :
    {A : Type 0} (test : A → Bool) (xs : List A)
    → All (λ x. (test x ≡ true) × Any (λ y. y ≡ x) xs) (select test xs)
unfolding select
select-All test [] = tt
select-All test (x ∷ xs) =
    let rest = All-imp (select test xs) (λ y h. (h.0, inr h.1)) (select-All test xs) in
    elim (Bool-cases (test x)) [ inl e ↦ rw e ((e, inl refl), rest) | inr e ↦ rw e rest ]

Any-ap :
    {A B : Type 0} (f : A → B) (P : A → Type 0) {x : A} (xs : List A)
    → P x
    → Any (λ y. y ≡ x) xs
    → Any (λ y. (f y ≡ f x) × P y) xs
Any-ap f P [] p h = elim h [ ]
Any-ap f P (y ∷ ys) p (inl e) = inl (ap f e, subst P (sym e) p)
Any-ap f P (y ∷ ys) p (inr h) = inr (Any-ap f P ys p h)

-- The ids that are named are ids of grants that allow the access.
named_grants :
    (effect : MemoryAccessEffect) (namespace : Text) (at : ℕ) (grants : List MemoryAccessGrant)
    → All (IsGrantOf effect namespace at grants) (
        sort_by text_le (
          map
            (λ (g : MemoryAccessGrant). g.grant_id)
            (select (λ (g : MemoryAccessGrant). allows g effect namespace at) grants)))
named_grants effect namespace at grants =
    All-sort_by text_le (IsGrantOf effect namespace at grants) _ (
      All-map _ (λ (g : MemoryAccessGrant). g.grant_id)
        (select (λ (g : MemoryAccessGrant). allows g effect namespace at) grants)
        (All-imp (select (λ (g : MemoryAccessGrant). allows g effect namespace at) grants)
          (λ g h.
            Any-ap (λ (x : MemoryAccessGrant). x.grant_id)
              (λ x. allows x effect namespace at ≡ true) grants h.0 h.1)
          (select-All (λ (g : MemoryAccessGrant). allows g effect namespace at) grants)))

All-dedup : (P : Text → Type 0) (xs : List Text) → All P xs → All P (dedup xs)
unfolding dedup
All-dedup P [] h = h
All-dedup P (x ∷ []) h = h
All-dedup P (x ∷ y ∷ xs) h =
    let rest = All-dedup P (y ∷ xs) h.1 in
    elim (Bool-cases (x == y)) [ inl e ↦ rw e rest | inr e ↦ rw e (h.0, rest) ]

-- The order of the grants does not matter.
pub sorted-IsAuthorized :
    (reads : Reads) (binding : ActorProfileBinding) (effect : MemoryAccessEffect)
    (requested : List Text) (at : ℕ) (a : AuthorizedMemoryStore)
    → IsAuthorized reads binding effect requested at a
    → IsAuthorized reads binding effect requested at (with_sorted_grants a)
unfolding sorted_ids
sorted-IsAuthorized reads binding effect requested at a w = record {
  store = w.store;
  stored = w.stored;
  is_open = w.is_open;
  owner = w.owner;
  same_id = w.same_id;
  same_namespace = w.same_namespace;
  same_path = w.same_path;
  asked = w.asked;
  grants = w.grants;
  granted = w.granted;
  may = w.may;
  named = All-dedup _ _ (All-sort_by text_le _ a.grant_ids w.named);
  ahead = w.ahead;
  bounded = w.bounded;
}

-- A store that is decided for may be accessed, until the first of its grants ends.
decide_store-some :
    (binding : ActorProfileBinding) (effect : MemoryAccessEffect) (at : ℕ) (s : MemoryStoreIdentity)
    (grants : List MemoryAccessGrant) (a : AuthorizedMemoryStore)
    → decide_store binding effect at s grants ≡ some a
    → MayAccess binding.profile_id (subject binding) s grants effect s.namespace at
      × (to_authorized binding s
            (select (λ (g : MemoryAccessGrant). allows g effect s.namespace at) grants)
          ≡ a)
unfolding decide_store
decide_store-some binding effect at s grants a h =
    let exact =
      authorize_memory_access_iff binding.profile_id (subject binding) s grants effect s.namespace
        at in
    go (authorize_memory_access binding.profile_id (subject binding) s grants effect s.namespace at)
      refl exact h
  where
    go :
        (verdict : Result MnemesError (Unit {0}))
        → authorize_memory_access binding.profile_id
            (subject binding)
            s
            grants
            effect
            s.namespace
            at
          ≡ verdict
        → (authorize_memory_access binding.profile_id
              (subject binding)
              s
              grants
              effect
              s.namespace
              at
            ≡ ok tt)
          ↔ MayAccess binding.profile_id (subject binding) s grants effect s.namespace at
        → ◌≡◌ {A = Option AuthorizedMemoryStore}
            (elim verdict [
              | err e ↦ none
              | ok v ↦ some (
                  to_authorized binding s
                    (select (λ (g : MemoryAccessGrant). allows g effect s.namespace at) grants))
            ])
            (some a)
        → MayAccess binding.profile_id (subject binding) s grants effect s.namespace at
          × (to_authorized binding s
                (select (λ (g : MemoryAccessGrant). allows g effect s.namespace at) grants)
              ≡ a)
    go (err e) same exact h = cc
    go (ok tt) same exact h = (exact.0 same, some_injective h)

to_authorized-ahead :
    (binding : ActorProfileBinding) (effect : MemoryAccessEffect) (at : ℕ) (namespace : Text)
    (grants : List MemoryAccessGrant)
    → at < binding.expires_at
    → at
      < min
          (min_expiry binding.expires_at
            (select (λ (g : MemoryAccessGrant). allows g effect namespace at) grants))
          binding.expires_at
to_authorized-ahead binding effect at namespace grants running =
    let allowing = select (λ (g : MemoryAccessGrant). allows g effect namespace at) grants in
    let ahead =
      min_expiry_ahead binding.expires_at at allowing running (
        All-imp allowing (λ g h. allows_running g effect namespace at h.0) (select-All _ grants)) in
    let (below, below', chosen) =
      min_lem (min_expiry binding.expires_at allowing) binding.expires_at in
    elim chosen [
      | inl e ↦ subst (λ n. at < n) (sym e) ahead
      | inr e ↦ subst (λ n. at < n) (sym e) running
    ]

-- What one turn of the loop pushes is authorized.
abbrev pub Pushes :
    Reads
    → ActorProfileBinding
    → MemoryAccessEffect
    → List Text
    → ℕ
    → Option AuthorizedMemoryStore
    → Type 0
Pushes reads binding effect requested at o =
    (a : AuthorizedMemoryStore) → o ≡ some a → IsAuthorized reads binding effect requested at a

pub admit_store-Pushes :
    (reads : Reads) (binding : ActorProfileBinding) (effect : MemoryAccessEffect)
    (requested : List Text) (at : ℕ) (s : MemoryStoreIdentity) (p : MemoryProfileId)
    (o : Option AuthorizedMemoryStore)
    → at < binding.expires_at
    → (is_open_store reads.stores s ≡ true) × Any (λ x. x ≡ s) reads.stores.memory_stores
    → parse_profile_id s.profile_id.as_str ≡ ok p
    → admit_store binding effect requested at reads (record s { profile_id = p }) ≡ ok o
    → Pushes reads binding effect requested at o
unfolding admit_store to_authorized
admit_store-Pushes reads binding effect requested at s p o running stored parsed h a e =
    elim (Bool-cases (is_requested requested s.namespace)) [
      | inr other ↦ let h' = rw (other, e) at h in cc (ok_injective h')
      | inl asked ↦
          let h' = rw asked at h in
          let (grants, granted, last) =
            >>=-eq-ok
              (memory_grants_for_profile_store binding.profile_id s.store_id
                (reads.grants s.store_id))
              _ h' in
          let (may, same) =
            decide_store-some binding effect at (record s { profile_id = p }) grants a
              (ok_injective last ∙ e) in
          subst (IsAuthorized reads binding effect requested at) same (record {
            store = s;
            stored = stored.1;
            is_open = stored.0;
            owner = parsed;
            same_id = refl;
            same_namespace = refl;
            same_path = refl;
            asked = asked;
            grants = grants;
            granted = granted;
            may = may;
            named = named_grants effect s.namespace at grants;
            ahead = to_authorized-ahead binding effect at s.namespace grants running;
            bounded = (min_lem _ _).1;
          })
    ]
