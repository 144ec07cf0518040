-- ===== src/Registry/Commands/Devices.antt =====
-- src/store.rs: whatever commands ran, the shards follow their devices.
use mnemes.Prelude.{
  ◌≡◌, refl, inl, inr, Bool, true, false, Bool-cases, none, some, List, [], ◌∷◌, map, is_empty,
  Result, ok, err, arith, ◌==◌, ◌&&◌, list_eq, if◌then◌else◌,
}
use mathlib.Core.Path.{subst}
use mnemes.Prelude.Bytes.{Bytes}
use mnemes.Prelude.Text.{Text}
use mnemes.Error.{MnemesError}
use mnemes.Identity.{Device, ActorKind, DeviceStatus}
use mnemes.Registry.{Tables, ShardRow, device_row, find_row, is_active_device}
use mnemes.Registry.Devices.{
  bootstrap, bootstrap_with_tx, register_device, rotate_device_credential, set_device_status,
  heartbeat_device, register_actor, update_device, set_shard_state, insert_device_shard_row,
}
use mnemes.Shards.{shard_state_from}
use mnemes.Registry.Devices.Mirror.{
  IsMirrored, IsMirrored-insert, IsMirrored-map, IsMirrored-devices,
}
use mnemes.Registry.Lifecycle.{
  register_memory_profile, register_memory_store, set_memory_profile_status,
  set_memory_store_status,
}
use mnemes.Registry.Grants.{grant_memory_access, revoke_memory_access}
use mnemes.Registry.Bindings.{bind_actor_profile, revoke_actor_profile_binding}
use mnemes.Registry.Commands.{
  Command, boot, add_device, rotate, set_device, heartbeat, add_actor, add_profile, add_store,
  set_profile, set_store, grant, revoke_grant, bind, revoke_binding, tables, exec, after, run,
}

abbrev pub Mirrored : Tables → Type 0
Mirrored db = IsMirrored db.devices db.device_shards

-- What the tables hold afterwards is mirrored.
arrives :
    (devices : List Device) (shards : List ShardRow) (db' : Tables)
    → (devices ≡ db'.devices) × (shards ≡ db'.device_shards)
    → IsMirrored devices shards
    → Mirrored db'
arrives devices shards db' (same, same') m =
    subst (IsMirrored db'.devices) same' (subst (λ ds. IsMirrored ds shards) same m)

register_device-Mirrored :
    (now : Text) (d : Device) (db db' : Tables)
    → tables (register_device now d db) ≡ ok db'
    → Mirrored db
    → Mirrored db'
unfolding register_device device_row
register_device-Mirrored now d db db' h m =
    let (fresh, same) : (device_row db d.device_id ≡ none)
        × (record db {
          devices = record d { first_seen_at = now; last_seen_at = now } ∷ db.devices;
          device_shards = insert_device_shard_row d.device_id d.status now db.device_shards;
        }
            ≡ db') =
      ground arith in
    subst Mirrored same (
      IsMirrored-insert (record d { first_seen_at = now; last_seen_at = now }) now db.devices
        db.device_shards fresh m)

bootstrap-Mirrored :
    (now digest actor_id : Text) (d : Device) (kind : ActorKind) (db db' : Tables)
    → tables (bootstrap now digest actor_id d kind db) ≡ ok db'
    → Mirrored db
    → Mirrored db'
unfolding bootstrap bootstrap_with_tx
bootstrap-Mirrored now digest actor_id d kind db db' h m =
    let first : Device = record d {
      first_seen_at = now;
      last_seen_at = now;
      credential_fingerprint = some digest;
    } in
    let (none_yet, there) : (is_empty db.devices ≡ true)
        × ((first ∷ db.devices ≡ db'.devices)
            × (insert_device_shard_row d.device_id d.status now db.device_shards
                ≡ db'.device_shards)) =
      ground arith in
    arrives _ _ db' there
      (IsMirrored-insert first now db.devices db.device_shards (fresh db.devices none_yet) m)
  where
    fresh :
        (ds : List Device)
        → is_empty ds ≡ true
        → find_row (λ (x : Device). x.device_id == d.device_id) ds ≡ none
    fresh [] h = unfold find_row in refl
    fresh (x ∷ ds) h = cc

set_device_status-Mirrored :
    (now id : Text) (status : DeviceStatus) (db db' : Tables)
    → tables (set_device_status now id status db) ≡ ok db'
    → Mirrored db
    → Mirrored db'
unfolding set_device_status update_device set_shard_state
set_device_status-Mirrored now id status db db' h m =
    let change : Device → Device =
      λ d. if d.device_id == id then record d { status = status; last_seen_at = now } else d in
    let there : (map change db.devices ≡ db'.devices)
        × (map (set_shard_state id (shard_state_from status)) db.device_shards
            ≡ db'.device_shards) =
      ground arith in
    arrives _ _ db' there (
      IsMirrored-map change (set_shard_state id (shard_state_from status))
        (record {
          device_id = λ d. elim (Bool-cases (d.device_id == id)) [
            | inl e ↦ simp e refl
            | inr e ↦ simp e refl
          ];
          shard_id = λ r. elim (Bool-cases (r.device_id == id)) [
            | inl e ↦ simp e refl
            | inr e ↦ simp e refl
          ];
          path = λ r. elim (Bool-cases (r.device_id == id)) [
            | inl e ↦ simp e refl
            | inr e ↦ simp e refl
          ];
          state = λ d r same state. elim (Bool-cases (d.device_id == id)) [
            | inl e ↦ let e' : (r.device_id == id) ≡ true = rw same e in simp (e, e') refl
            | inr e ↦ let e' : (r.device_id == id) ≡ false = rw same e in simp (e, e') state
          ];
        })
        db.devices db.device_shards m)

rotate-Mirrored :
    (now digest id : Text) (db db' : Tables)
    → tables (rotate_device_credential now digest id db) ≡ ok db'
    → Mirrored db
    → Mirrored db'
unfolding rotate_device_credential update_device
rotate-Mirrored now digest id db db' h m =
    let change : Device → Device = λ d.
      if d.device_id == id
      then record d { credential_fingerprint = some digest; last_seen_at = now }
      else d in
    let there : (map change db.devices ≡ db'.devices) × (db.device_shards ≡ db'.device_shards) =
      ground arith in
    arrives _ _ db' there (
      IsMirrored-devices change db.devices db.device_shards
        (λ d. elim (Bool-cases (d.device_id == id)) [ inl e ↦ simp e refl | inr e ↦ simp e refl ])
        (λ d. elim (Bool-cases (d.device_id == id)) [ inl e ↦ simp e refl | inr e ↦ simp e refl ])
        m)

heartbeat-Mirrored :
    (now id : Text) (db db' : Tables)
    → tables (heartbeat_device now id db) ≡ ok db'
    → Mirrored db
    → Mirrored db'
unfolding heartbeat_device
heartbeat-Mirrored now id db db' h m =
    let seen : Device → Bool = λ d. is_active_device d.status && d.device_id == id in
    let change : Device → Device = λ d. if seen d then record d { last_seen_at = now } else d in
    let there : (map change db.devices ≡ db'.devices) × (db.device_shards ≡ db'.device_shards) =
      ground arith in
    arrives _ _ db' there (
      IsMirrored-devices change db.devices db.device_shards
        (λ d. elim (Bool-cases (seen d)) [ inl e ↦ simp e refl | inr e ↦ simp e refl ])
        (λ d. elim (Bool-cases (seen d)) [ inl e ↦ simp e refl | inr e ↦ simp e refl ]) m)

-- One command.
exec-Mirrored :
    (sha256_hex : Bytes → Text) (now : Text) (c : Command) (db db' : Tables)
    → exec sha256_hex now c db ≡ ok db'
    → Mirrored db
    → Mirrored db'
unfolding exec register_actor register_memory_profile register_memory_store
    set_memory_profile_status set_memory_store_status grant_memory_access revoke_memory_access
    bind_actor_profile revoke_actor_profile_binding
exec-Mirrored sha256_hex now (boot digest actor_id device kind) db db' h m =
    bootstrap-Mirrored now digest actor_id device kind db db' h m
exec-Mirrored sha256_hex now (add_device device) db db' h m =
    register_device-Mirrored now device db db' h m
exec-Mirrored sha256_hex now (rotate digest id) db db' h m =
    rotate-Mirrored now digest id db db' h m
exec-Mirrored sha256_hex now (set_device id status) db db' h m =
    set_device_status-Mirrored now id status db db' h m
exec-Mirrored sha256_hex now (heartbeat id) db db' h m = heartbeat-Mirrored now id db db' h m
exec-Mirrored sha256_hex now (add_actor actor) db db' h m =
    arrives db.devices db.device_shards db' (ground arith) m
exec-Mirrored sha256_hex now (add_profile profile) db db' h m =
    arrives db.devices db.device_shards db' (ground arith) m
exec-Mirrored sha256_hex now (add_store store) db db' h m =
    arrives db.devices db.device_shards db' (ground arith) m
exec-Mirrored sha256_hex now (set_profile id status) db db' h m =
    arrives db.devices db.device_shards db' (ground arith) m
exec-Mirrored sha256_hex now (set_store id status) db db' h m =
    arrives db.devices db.device_shards db' (ground arith) m
exec-Mirrored sha256_hex now (grant g) db db' h m =
    arrives db.devices db.device_shards db' (ground arith) m
exec-Mirrored sha256_hex now (revoke_grant id at) db db' h m =
    arrives db.devices db.device_shards db' (ground arith) m
exec-Mirrored sha256_hex now (bind b) db db' h m =
    arrives db.devices db.device_shards db' (ground arith) m
exec-Mirrored sha256_hex now (revoke_binding id at) db db' h m =
    arrives db.devices db.device_shards db' (ground arith) m

after-Mirrored :
    (sha256_hex : Bytes → Text) (now : Text) (c : Command) (db : Tables)
    (r : Result MnemesError Tables)
    → exec sha256_hex now c db ≡ r
    → Mirrored db
    → Mirrored (after sha256_hex db r)
after-Mirrored sha256_hex now c db (ok db') h m = exec-Mirrored sha256_hex now c db db' h m
after-Mirrored sha256_hex now c db (err e) h m = m

-- Whatever commands run, at whatever times, on tables where each device has the row of its shard in
-- the state of its status, and each such row has the path of a device that is there, the tables are
-- so afterwards.
pub run-Mirrored :
    (sha256_hex : Bytes → Text) (commands : List (Text × Command)) (db : Tables)
    → Mirrored db
    → Mirrored (run sha256_hex commands db)
unfolding run
run-Mirrored sha256_hex [] db m = m
run-Mirrored sha256_hex ((now, c) ∷ commands) db m =
    run-Mirrored sha256_hex commands (after sha256_hex db (exec sha256_hex now c db))
      (after-Mirrored sha256_hex now c db (exec sha256_hex now c db) refl m)
