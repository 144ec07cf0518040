-- ===== src/Registry/Lifecycle.antt =====
-- src/store.rs: devices, actors, profiles and stores are registered, and their status is set.
use mnemes.Prelude.{
  Bool, true, false, ◌||◌, not, Option, none, some, ◌∷◌, map, any, ◌==◌, ◌!=◌, list_eq,
  if◌then◌else◌, ok, err, ◌>>=◌, ◌>>◌, reject_if, ok_or,
}
use mnemes.Prelude.Text.{Text}
use mnemes.Error.{invalid_memory_scope, memory_grant_denied, device_not_active, words, quoting}
use mnemes.Identity.{Device}
use mnemes.Profiles.Scope.{
  Verdict, MemoryProfileId, MemoryProfile, MemoryProfileStatus, MemoryStoreIdentity,
  MemoryStoreStatus, profile_validate, store_identity_validate,
}
use mnemes.Profiles.Access.{is_active_profile, is_active_store}
use mnemes.Registry.{
  Tables, Outcome, is_active_device, device_row, profile_row, store_row, constraint_failed,
}

abbrev pub is_present {ℓ} : {A : Type ℓ} → Option A → Bool
is_present none = false
is_present (some a) = true

-- The device of the id, if it is active; otherwise the error names it.
unfoldable pub check_device : Tables → Text → Verdict
check_device db id = elim (device_row db id) [
  | none ↦ err (device_not_active (quoting "" id))
  | some d ↦ reject_if (not (is_active_device d.status)) (device_not_active (quoting "" id))
]

unfoldable pub register_memory_profile :
    (now : Text) → MemoryProfile → Tables → Outcome MemoryProfileId
register_memory_profile now profile db = do
  profile_validate profile
  reject_if (not (is_active_profile profile.status))
      (invalid_memory_scope (words "new memory profiles must be active"))
  check_device db profile.owner_device_id
  reject_if (is_present (profile_row db profile.profile_id)) constraint_failed
  ok (
    profile.profile_id,
    record db { memory_profiles = record profile { created_at = now } ∷ db.memory_profiles },
  )

-- `p.owner_device_id, d.status` of the active profile joined with its device.
unfoldable pub active_owner : Tables → MemoryProfileId → Option Device
active_owner db id = elim (profile_row db id) [
  | none ↦ none
  | some p ↦ if is_active_profile p.status then device_row db p.owner_device_id else none
]

unfoldable pub register_memory_store : (now : Text) → MemoryStoreIdentity → Tables → Outcome Text
register_memory_store now store db = do
  store_identity_validate store
  reject_if (not (is_active_store store.status))
      (invalid_memory_scope (words "new memory stores must be active"))
  owner ←
      ok_or (active_owner db store.profile_id)
        (memory_grant_denied (words "store profile is not active or does not exist"))
  reject_if (not (is_active_device owner.status)) (device_not_active (quoting "" owner.device_id))
  reject_if (owner.device_id != store.owner_device_id)
      (memory_grant_denied (words "store owner device does not match the active profile owner"))
  reject_if
      (is_present (store_row db store.store_id)
        || any (λ (s : MemoryStoreIdentity). s.relative_path == store.relative_path)
            db.memory_stores)
      constraint_failed
  ok (
    store.store_id,
    record db { memory_stores = record store { created_at = now } ∷ db.memory_stores },
  )

unfoldable pub set_profile : MemoryProfileId → MemoryProfileStatus → MemoryProfile → MemoryProfile
set_profile id status p =
    if p.profile_id.as_str == id.as_str then record p { status = status } else p

unfoldable pub set_memory_profile_status :
    MemoryProfileId → MemoryProfileStatus → Tables → Outcome (Unit {0})
set_memory_profile_status id status db = do
  reject_if (not (is_present (profile_row db id)))
      (memory_grant_denied (words "memory profile does not exist"))
  ok (tt, record db { memory_profiles = map (set_profile id status) db.memory_profiles })

unfoldable pub set_store : Text → MemoryStoreStatus → MemoryStoreIdentity → MemoryStoreIdentity
set_store id status s = if s.store_id == id then record s { status = status } else s

unfoldable pub set_memory_store_status : Text → MemoryStoreStatus → Tables → Outcome (Unit {0})
set_memory_store_status id status db = do
  reject_if (not (is_present (store_row db id)))
      (memory_grant_denied (words "memory store does not exist"))
  ok (tt, record db { memory_stores = map (set_store id status) db.memory_stores })
