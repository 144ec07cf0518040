-- ===== src/Registry/Snapshots.antt =====
-- src/store.rs: the stores that an actor may access at one time are collected in a snapshot, a
-- snapshot is checked against the current rows, and permits are issued from it.
pub mod Admission
pub mod Laws
use mnemes.Prelude.{
  ℕ, ◌+◌, ◌-◌, ◌^◌, Bool, true, false, ◌&&◌, ◌||◌, not, Option, none, some, List, [], ◌∷◌, map, any,
  is_empty, ltb, leb, ◌==◌, ◌!=◌, nat_eq, list_eq, if◌then◌else◌, Result, ok, err, ◌>>=◌, ◌>>◌,
  reject_if, ok_or,
}
use mnemes.Prelude.Bytes.{Bytes}
use mnemes.Prelude.Text.{Text, text}
use mnemes.Prelude.Sort.{sort_by, text_le}
use mnemes.Error.{MnemesError, memory_grant_denied, authorization_snapshot_invalid, words}
use mnemes.Identity.{Device}
use mnemes.Profiles.Scope.{
  Verdict, MemoryProfile, MemoryProfileStatus, MemoryStoreIdentity, parse_profile_id,
}
use mnemes.Profiles.Access.{
  MemoryAccessEffect, MemoryAccessGrant, allows, authorize_memory_access, is_active_profile,
  is_active_store,
}
use mnemes.Profiles.Binding.{ActorProfileBinding}
use mnemes.Profiles.Snapshot.{
  AuthorizedMemoryStore, AuthorizationSnapshot, MemoryAccessPermit, snapshot_new, snapshot_validate,
  permit_new,
}
use mnemes.Registry.{Tables, find_row, select, is_active_device}
use mnemes.Registry.Grants.{StoreOwner, join_owner, memory_grants_for_profile_store}
use mnemes.Registry.Bindings.{resolve_actor_profile}

-- The states of the tables that the building of a snapshot sees: its reads, of the binding, of the open
-- stores, and of the grants of each store, are under different locks, between which others may write.
pub record Reads : Type 0 where
  pub binding : Tables
  pub stores : Tables
  pub grants : (store_id : Text) → Tables

-- The reads when no one writes in between.
abbrev pub at_once : Tables → Reads
at_once db = record { binding = db; stores = db; grants = λ store_id. db }

-- `s.status = 'active' AND p.status = 'active' AND d.status = 'active'`, on the joined row.
unfoldable pub is_open_store : Tables → MemoryStoreIdentity → Bool
is_open_store db s = elim (join_owner db s) [
  | none ↦ false
  | some o ↦
      is_active_store o.store.status
      && is_active_profile o.profile.status
      && is_active_device o.device.status
]

abbrev pub store_le : MemoryStoreIdentity → MemoryStoreIdentity → Bool
store_le a b = text_le a.store_id b.store_id

unfoldable pub min : ℕ → ℕ → ℕ
min a b = if leb a b then a else b

-- `Iterator::min` of the ends, or `default` without any.
unfoldable pub min_expiry : ℕ → List MemoryAccessGrant → ℕ
min_expiry default [] = default
min_expiry default (g ∷ []) = g.expires_at
min_expiry default (g ∷ h ∷ gs) = min g.expires_at (min_expiry default (h ∷ gs))

unfoldable pub to_authorized :
    ActorProfileBinding → MemoryStoreIdentity → List MemoryAccessGrant → AuthorizedMemoryStore
to_authorized binding s allowing = record {
  store_id = s.store_id;
  profile_id = s.profile_id;
  owner_device_id = s.owner_device_id;
  namespace = s.namespace;
  relative_path = s.relative_path;
  grant_ids = sort_by text_le (map (λ (g : MemoryAccessGrant). g.grant_id) allowing);
  authorization_expires_at = min (min_expiry binding.expires_at allowing) binding.expires_at;
}

-- The subject of the decision, made from the binding.
unfoldable pub subject : ActorProfileBinding → MemoryProfile
subject b = record {
  profile_id = b.profile_id;
  owner_device_id = b.owner_device_id;
  label = text "authorization subject";
  status = MemoryProfileStatus.active;
  created_at = [];
}

unfoldable pub is_requested : List Text → Text → Bool
is_requested requested namespace = is_empty requested || any (λ n. n == namespace) requested

-- The store to push, if the decision is for it.
unfoldable pub decide_store :
    ActorProfileBinding
    → MemoryAccessEffect
    → ℕ
    → MemoryStoreIdentity
    → List MemoryAccessGrant
    → Option AuthorizedMemoryStore
decide_store binding effect at s grants =
    elim (authorize_memory_access binding.profile_id (subject binding) s grants effect s.namespace
      at) [
        | err e ↦ none
        | ok v ↦ some (
            to_authorized binding s
              (select (λ (g : MemoryAccessGrant). allows g effect s.namespace at) grants))
      ]

unfoldable pub admit_store :
    ActorProfileBinding
    → MemoryAccessEffect
    → List Text
    → ℕ
    → Reads
    → MemoryStoreIdentity
    → Result MnemesError (Option AuthorizedMemoryStore)
admit_store binding effect requested at reads s =
    if not (is_requested requested s.namespace)
    then ok none
    else memory_grants_for_profile_store binding.profile_id s.store_id (reads.grants s.store_id)
      >>= λ grants. ok (decide_store binding effect at s grants)

-- One turn of the loop: `continue`, or the store to push.
unfoldable pub consider :
    ActorProfileBinding
    → MemoryAccessEffect
    → List Text
    → ℕ
    → Reads
    → MemoryStoreIdentity
    → Result MnemesError (Option AuthorizedMemoryStore)
consider binding effect requested at reads row = do
  profile_id ← parse_profile_id row.profile_id.as_str
  admit_store binding effect requested at reads (record row { profile_id = profile_id })

abbrev pub push {ℓ} : {A : Type ℓ} → Option A → List A → List A
push none rest = rest
push (some a) rest = a ∷ rest

unfoldable pub consider_all :
    ActorProfileBinding
    → MemoryAccessEffect
    → List Text
    → ℕ
    → Reads
    → List MemoryStoreIdentity
    → Result MnemesError (List AuthorizedMemoryStore)
consider_all binding effect requested at reads [] = ok []
consider_all binding effect requested at reads (s ∷ rows) = do
  here ← consider binding effect requested at reads s
  rest ← consider_all binding effect requested at reads rows
  ok (push here rest)

-- `at.saturating_add(60)` of a u64.
unfoldable pub saturating_add : ℕ → ℕ → ℕ
saturating_add a b = min (a + b) (2 ^ 64 - 1)

-- `Iterator::find` on the stores of a snapshot.
unfoldable pub admitted_store : AuthorizationSnapshot → Text → Text → Option AuthorizedMemoryStore
admitted_store snapshot store_id namespace =
    find_row (λ (s : AuthorizedMemoryStore). s.store_id == store_id && s.namespace == namespace)
      snapshot.authorized_stores

-- `id` is the random UUID of what is made.
module _ (sha256_hex : Bytes → Text) where
  unfoldable pub build_authorization_snapshot :
      (id actor_id : Text) (effect : MemoryAccessEffect) (namespaces : List Text) (at : ℕ)
      → Reads
      → Result MnemesError AuthorizationSnapshot
  build_authorization_snapshot id actor_id effect namespaces at reads = do
    binding ← resolve_actor_profile sha256_hex actor_id at reads.binding
    stores ←
        consider_all binding effect namespaces at reads
          (sort_by store_le (select (is_open_store reads.stores) reads.stores.memory_stores))
    ok (snapshot_new sha256_hex id binding effect namespaces stores at)

  unfoldable pub validate_authorization_snapshot :
      (id : Text) → AuthorizationSnapshot → ℕ → Reads → Verdict
  validate_authorization_snapshot id snapshot at reads = do
    snapshot_validate sha256_hex snapshot
    reject_if (snapshot.evaluated_at != at) (
        authorization_snapshot_invalid
          (words "snapshot evaluation time does not match request authorization time"))
    current ←
        build_authorization_snapshot id snapshot.actor_id snapshot.effect snapshot.namespaces at
          reads
    reject_if (current.snapshot_digest != snapshot.snapshot_digest) (
        authorization_snapshot_invalid
          (words "snapshot no longer matches current binding, lifecycle, or grants"))

  unfoldable pub list_authorized_stores :
      (id : Text)
      → AuthorizationSnapshot
      → ℕ
      → Reads
      → Result MnemesError (List AuthorizedMemoryStore)
  list_authorized_stores id snapshot at reads = do
    validate_authorization_snapshot id snapshot at reads
    ok snapshot.authorized_stores

  unfoldable pub issue_memory_access_permit :
      (id permit_id : Text)
      → AuthorizationSnapshot
      → (store_id namespace : Text) (at query_budget : ℕ) → Reads
      → Result MnemesError MemoryAccessPermit
  issue_memory_access_permit id permit_id snapshot store_id namespace at query_budget reads = do
    validate_authorization_snapshot id snapshot at reads
    store ←
        ok_or (admitted_store snapshot store_id namespace)
          (memory_grant_denied (words "store is not admitted by the authorization snapshot"))
    let expires_at = min store.authorization_expires_at (saturating_add at 60)
    permit_new sha256_hex permit_id snapshot store at expires_at query_budget
