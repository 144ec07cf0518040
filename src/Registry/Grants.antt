-- ===== src/Registry/Grants.antt =====
-- src/store.rs: grants are recorded, revoked and read back, and the access decision is taken on the
-- rows of the registry.
pub mod Access
pub mod Laws
use mnemes.Prelude.{
  ℕ, Bool, true, false, ◌&&◌, ◌||◌, not, Option, none, some, List, [], ◌∷◌, map, any, leb, ◌==◌,
  ◌!=◌, list_eq, if◌then◌else◌, Result, ok, err, ◌>>=◌, ◌>>◌, reject_if, ok_or,
}
use mnemes.Prelude.Text.{Text}
use mnemes.Prelude.Int.{ℤ, pos, negsuc, int_eq, ltb_ℤ, as_i64}
use mnemes.Prelude.Sort.{sort_by, text_le}
use mnemes.Error.{
  MnemesError, authorization_denied, invalid_memory_scope, memory_grant_denied, device_not_active,
  words, quoting,
}
use mnemes.Identity.{Device, Actor, is_full}
use mnemes.Profiles.Scope.{
  Verdict, MemoryProfileId, MemoryProfile, MemoryProfileStatus, MemoryStoreIdentity,
  parse_profile_id, store_identity_new,
}
use mnemes.Profiles.Access.{
  MemoryAccessEffect, MemoryAccessGrant, effect_eq, grant_validate, authorize_memory_access,
  is_active_profile, is_active_store,
}
use mnemes.Registry.{
  GrantRow, Tables, Outcome, find_row, select, is_active_device, device_row, actor_row, profile_row,
  store_row, constraint_failed, no_rows, u64_try_from,
}

-- The actor joined with its device: is it an operator on an active device?
unfoldable pub is_active_operator : Tables → Text → Bool
is_active_operator db actor_id = elim (actor_row db actor_id) [
  | none ↦ false
  | some a ↦ elim (device_row db a.device_id) [
    | none ↦ false
    | some d ↦ is_full a.tool_profile && is_active_device d.status
  ]
]

-- A store joined with its profile and its owner's device.
pub record StoreOwner : Type 0 where
  pub store : MemoryStoreIdentity
  pub profile : MemoryProfile
  pub device : Device

unfoldable pub join_owner : Tables → MemoryStoreIdentity → Option StoreOwner
join_owner db s = elim (profile_row db s.profile_id) [
  | none ↦ none
  | some p ↦ elim (device_row db s.owner_device_id) [
    | none ↦ none
    | some d ↦ some (record { store = s; profile = p; device = d })
  ]
]

-- The store of the id, if it is active, with its owner.
unfoldable pub target_store : Tables → Text → Option StoreOwner
target_store db id = elim (store_row db id) [
  | none ↦ none
  | some s ↦ if is_active_store s.status then join_owner db s else none
]

-- A profile, whatever its status, joined with its device.
unfoldable pub grantee_owner : Tables → MemoryProfileId → Option (MemoryProfile × Device)
grantee_owner db id = elim (profile_row db id) [
  | none ↦ none
  | some p ↦ elim (device_row db p.owner_device_id) [ none ↦ none | some d ↦ some (p, d) ]
]

abbrev pub map_option {ℓ κ} : {A : Type ℓ} {B : Type κ} → (A → B) → Option A → Option B
map_option f none = none
map_option f (some a) = some (f a)

unfoldable pub grant_to_row : (now : Text) → MemoryAccessGrant → GrantRow
grant_to_row now g = record {
  grant_id = g.grant_id;
  grantee_profile_id = g.grantee_profile_id;
  store_id = g.store_id;
  namespace = g.namespace;
  effect = g.effect;
  issued_by_actor_id = g.issued_by_actor_id;
  valid_from = as_i64 g.valid_from;
  expires_at = as_i64 g.expires_at;
  revoked_at = map_option as_i64 g.revoked_at;
  created_at = now;
}

-- `revoked_at IS NULL OR revoked_at >= valid_from`
abbrev pub ends_later : Option ℤ → ℤ → Bool
ends_later none from = true
ends_later (some t) from = not (ltb_ℤ t from)

-- The tests that the schema makes on one row.
unfoldable pub checks : GrantRow → Bool
checks r =
    not (ltb_ℤ r.valid_from (pos 0))
    && ltb_ℤ r.valid_from r.expires_at
    && ends_later r.revoked_at r.valid_from

-- `UNIQUE(grantee_profile_id, store_id, namespace, effect, valid_from)`, and the primary key.
unfoldable pub clashes : GrantRow → GrantRow → Bool
clashes a b =
    a.grant_id == b.grant_id
    || a.grantee_profile_id.as_str == b.grantee_profile_id.as_str
      && a.store_id == b.store_id
      && a.namespace == b.namespace
      && a.effect == b.effect
      && a.valid_from == b.valid_from

unfoldable pub grant_memory_access : (now : Text) → MemoryAccessGrant → Tables → Outcome Text
grant_memory_access now grant db = do
  grant_validate grant
  reject_if (not (is_active_operator db grant.issued_by_actor_id))
      (authorization_denied (words "memory grants require an active operator actor"))
  target ←
      ok_or (target_store db grant.store_id)
        (memory_grant_denied (words "grant target store is not active or does not exist"))
  reject_if (target.store.namespace != grant.namespace)
      (memory_grant_denied (words "grant namespace does not match the target store"))
  reject_if (not (is_active_profile target.profile.status))
      (memory_grant_denied (words "grant target profile is not active"))
  reject_if (not (is_active_device target.device.status))
      (device_not_active (quoting "" target.store.owner_device_id))
  grantee ←
      ok_or (grantee_owner db grant.grantee_profile_id)
        (memory_grant_denied (words "grant grantee profile does not exist"))
  reject_if (not (is_active_profile grantee.0.status))
      (memory_grant_denied (words "grant grantee profile is not active"))
  reject_if (not (is_active_device grantee.1.status))
      (memory_grant_denied (words "grant grantee device is not active"))
  let row = grant_to_row now grant
  reject_if (not (checks row) || any (clashes row) db.memory_access_grants) constraint_failed
  ok (grant.grant_id, record db { memory_access_grants = row ∷ db.memory_access_grants })

-- `WHERE grant_id = ?2 AND revoked_at IS NULL`
unfoldable pub is_open_grant : Text → GrantRow → Bool
is_open_grant id r = elim r.revoked_at [ none ↦ r.grant_id == id | some t ↦ false ]

unfoldable pub set_revoked : Text → ℤ → GrantRow → GrantRow
set_revoked id t r = if is_open_grant id r then record r { revoked_at = some t } else r

unfoldable pub revoke_memory_access : Text → ℕ → Tables → Outcome (Unit {0})
revoke_memory_access id revoked_at db = do
  let t = as_i64 revoked_at
  reject_if
      (any (λ (r : GrantRow). is_open_grant id r && ltb_ℤ t r.valid_from) db.memory_access_grants)
      constraint_failed
  reject_if (not (any (is_open_grant id) db.memory_access_grants))
      (memory_grant_denied (words "grant does not exist or is already revoked"))
  ok (tt, record db { memory_access_grants = map (set_revoked id t) db.memory_access_grants })

-- `Option::transpose` after `u64::try_from`.
abbrev pub read_revoked : Option ℤ → Result MnemesError (Option ℕ)
read_revoked none = ok none
read_revoked (some t) =
    u64_try_from (invalid_memory_scope (words "negative grant revoked_at")) t >>= λ n. ok (some n)

unfoldable pub row_to_grant : GrantRow → Result MnemesError MemoryAccessGrant
row_to_grant r = do
  grantee ← parse_profile_id r.grantee_profile_id.as_str
  valid_from ← u64_try_from (invalid_memory_scope (words "negative grant valid_from")) r.valid_from
  expires_at ← u64_try_from (invalid_memory_scope (words "negative grant expires_at")) r.expires_at
  revoked_at ← read_revoked r.revoked_at
  ok (record {
    grant_id = r.grant_id;
    grantee_profile_id = grantee;
    store_id = r.store_id;
    namespace = r.namespace;
    effect = r.effect;
    issued_by_actor_id = r.issued_by_actor_id;
    valid_from = valid_from;
    expires_at = expires_at;
    revoked_at = revoked_at;
    created_at = r.created_at;
  })

unfoldable pub rows_to_grants : List GrantRow → Result MnemesError (List MemoryAccessGrant)
rows_to_grants [] = ok []
rows_to_grants (r ∷ rows) = do g ← row_to_grant r; gs ← rows_to_grants rows; ok (g ∷ gs)

-- `ORDER BY valid_from ASC, grant_id ASC`
abbrev pub grant_row_le : GrantRow → GrantRow → Bool
grant_row_le a b =
    ltb_ℤ a.valid_from b.valid_from || a.valid_from == b.valid_from && text_le a.grant_id b.grant_id

-- `WHERE grantee_profile_id = ?1 AND store_id = ?2`
abbrev pub is_grant_for : MemoryProfileId → Text → GrantRow → Bool
is_grant_for requester store_id r =
    r.grantee_profile_id.as_str == requester.as_str && r.store_id == store_id

unfoldable pub memory_grants_for_profile_store :
    MemoryProfileId → Text → Tables → Result MnemesError (List MemoryAccessGrant)
memory_grants_for_profile_store requester store_id db =
    rows_to_grants
      (sort_by grant_row_le (select (is_grant_for requester store_id) db.memory_access_grants))

-- The requesting profile, whose device is active.
unfoldable pub requesting_profile : MemoryProfileId → Tables → Result MnemesError MemoryProfile
requesting_profile requester db = do
  profile ←
      ok_or (profile_row db requester) (memory_grant_denied (words "requesting profile not found"))
  profile_id ← parse_profile_id profile.profile_id.as_str
  device ← ok_or (device_row db profile.owner_device_id) no_rows
  reject_if (not (is_active_device device.status))
      (device_not_active (quoting "" profile.owner_device_id))
  ok (record profile { profile_id = profile_id })

-- The tests on the owner of a store.
unfoldable pub check_owner : MemoryStoreIdentity → Tables → Verdict
check_owner store db = do
  device ← ok_or (device_row db store.owner_device_id) no_rows
  reject_if (not (is_active_device device.status))
      (device_not_active (quoting "" store.owner_device_id))
  profile ← ok_or (profile_row db store.profile_id) no_rows
  reject_if (not (is_active_profile profile.status))
      (memory_grant_denied (words "target store owner profile is not active"))

-- The store as its row identifies it.
unfoldable pub target_identity : Text → Tables → Result MnemesError MemoryStoreIdentity
target_identity store_id db = do
  row ← ok_or (store_row db store_id) (memory_grant_denied (words "target store not found"))
  owner_id ← parse_profile_id row.profile_id.as_str
  identity ←
      store_identity_new row.store_id owner_id row.owner_device_id row.namespace row.relative_path
  ok (record identity { status = row.status; created_at = row.created_at })

unfoldable pub authorize_store_access :
    MemoryProfileId → Text → Text → MemoryAccessEffect → ℕ → Tables → Verdict
authorize_store_access requester store_id namespace effect at db = do
  profile ← requesting_profile requester db
  store ← target_identity store_id db
  check_owner store db
  grants ← memory_grants_for_profile_store requester store_id db
  authorize_memory_access requester profile store grants effect namespace at
