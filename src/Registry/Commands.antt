-- ===== src/Registry/Commands.antt =====
-- src/store.rs: the commands that write to the registry, run one after the other; each holds the one
-- connection while it runs, and one that fails leaves the tables as they were.
pub mod Devices
pub mod Laws
use mnemes.Prelude.{ℕ, List, [], ◌∷◌, Result, ok, err}
use mnemes.Prelude.Bytes.{Bytes}
use mnemes.Prelude.Text.{Text}
use mnemes.Error.{MnemesError}
use mnemes.Identity.{Device, Actor, ActorKind, DeviceStatus}
use mnemes.Profiles.Scope.{
  MemoryProfileId, MemoryProfile, MemoryProfileStatus, MemoryStoreIdentity, MemoryStoreStatus,
}
use mnemes.Profiles.Access.{MemoryAccessGrant}
use mnemes.Profiles.Binding.{ActorProfileBinding}
use mnemes.Registry.{Tables, Outcome}
use mnemes.Registry.Devices.{
  bootstrap, register_device, rotate_device_credential, set_device_status, heartbeat_device,
  register_actor,
}
use mnemes.Registry.Lifecycle.{
  register_memory_profile, register_memory_store, set_memory_profile_status,
  set_memory_store_status,
}
use mnemes.Registry.Grants.{grant_memory_access, revoke_memory_access}
use mnemes.Registry.Bindings.{bind_actor_profile, revoke_actor_profile_binding}

pub data Command : Type 0 where
  boot : (digest actor_id : Text) → Device → ActorKind → Command
  add_device : Device → Command
  rotate : (digest device_id : Text) → Command
  set_device : Text → DeviceStatus → Command
  heartbeat : Text → Command
  add_actor : Actor → Command
  add_profile : MemoryProfile → Command
  add_store : MemoryStoreIdentity → Command
  set_profile : MemoryProfileId → MemoryProfileStatus → Command
  set_store : Text → MemoryStoreStatus → Command
  grant : MemoryAccessGrant → Command
  revoke_grant : Text → ℕ → Command
  bind : ActorProfileBinding → Command
  revoke_binding : Text → ℕ → Command

abbrev pub tables {ℓ} : {A : Type ℓ} → Outcome A → Result MnemesError Tables
tables (ok done) = ok done.1
tables (err e) = err e

module _ (sha256_hex : Bytes → Text) where
  unfoldable pub exec : (now : Text) → Command → Tables → Result MnemesError Tables
  exec now (boot digest actor_id device kind) db =
      tables (bootstrap now digest actor_id device kind db)
  exec now (add_device device) db = tables (register_device now device db)
  exec now (rotate digest id) db = tables (rotate_device_credential now digest id db)
  exec now (set_device id status) db = tables (set_device_status now id status db)
  exec now (heartbeat id) db = tables (heartbeat_device now id db)
  exec now (add_actor actor) db = tables (register_actor now actor db)
  exec now (add_profile profile) db = tables (register_memory_profile now profile db)
  exec now (add_store store) db = tables (register_memory_store now store db)
  exec now (set_profile id status) db = tables (set_memory_profile_status id status db)
  exec now (set_store id status) db = tables (set_memory_store_status id status db)
  exec now (grant g) db = tables (grant_memory_access now g db)
  exec now (revoke_grant id at) db = tables (revoke_memory_access id at db)
  exec now (bind b) db = tables (bind_actor_profile sha256_hex now b db)
  exec now (revoke_binding id at) db = tables (revoke_actor_profile_binding id at db)

  abbrev pub after : Tables → Result MnemesError Tables → Tables
  after db (ok db') = db'
  after db (err e) = db

  -- Each command with the time at which it runs.
  unfoldable pub run : List (Text × Command) → Tables → Tables
  run [] db = db
  run ((now, c) ∷ commands) db = run commands (after db (exec now c db))
