-- ===== src/Registry/Devices.antt =====
-- src/store.rs: devices and their actors are registered; a device's shard has its own row, whose state
-- follows the status of the device. The directory of the shard, and the columns of the shard's row
-- that only statistics write, are outside the model. A credential's digest is an argument.
pub mod Mirror
use mnemes.Prelude.{
  ℕ, Bool, true, false, ◌&&◌, ◌||◌, not, Option, none, some, List, [], ◌∷◌, ◌++◌, map, any,
  is_empty, ◌==◌, ◌!=◌, list_eq, if◌then◌else◌, Result, ok, err, ◌>>=◌, ◌>>◌, reject_if, ok_or,
}
use mnemes.Prelude.Text.{Text, text}
use mnemes.Error.{
  MnemesError, device_not_found, authorization_denied, bootstrap_rejected, words, quoting,
}
use mnemes.Identity.{Device, Actor, DeviceStatus, ActorKind, operator, is_full}
use mnemes.Profiles.Scope.{Verdict}
use mnemes.Registry.{
  Tables, ShardRow, Outcome, is_active_device, device_row, actor_row, constraint_failed,
}
use mnemes.Shards.{ShardState, shard_state_from}
use mnemes.Registry.Lifecycle.{is_present}

unfoldable pub shard_relative_path : Text → Text
shard_relative_path device_id = text "memory/shards/" ++ device_id

-- `INSERT OR IGNORE`: a row whose key or path is taken is left out.
unfoldable pub insert_device_shard_row :
    Text → DeviceStatus → (now : Text) → List ShardRow → List ShardRow
insert_device_shard_row device_id status now rows =
    if any
      (λ (r : ShardRow).
        r.device_id == device_id || r.relative_path == shard_relative_path device_id)
      rows
    then rows
    else record {
      device_id = device_id;
      relative_path = shard_relative_path device_id;
      state = shard_state_from status;
      created_at = now;
    }
      ∷ rows

unfoldable pub register_device : (now : Text) → Device → Tables → Outcome Text
register_device now device db = do
  reject_if (is_present (device_row db device.device_id)) constraint_failed
  ok (
    device.device_id,
    record db {
      devices = record device { first_seen_at = now; last_seen_at = now } ∷ db.devices;
      device_shards = insert_device_shard_row device.device_id device.status now db.device_shards;
    },
  )

unfoldable pub update_device : Text → (Device → Device) → List Device → List Device
update_device id change devices =
    map (λ (d : Device). if d.device_id == id then change d else d) devices

unfoldable pub rotate_device_credential : (now digest : Text) → Text → Tables → Outcome (Unit {0})
rotate_device_credential now digest id db = do
  reject_if (not (is_present (device_row db id))) (device_not_found (quoting "" id))
  ok (
    tt,
    record db {
      devices =
          update_device id
            (λ d. record d { credential_fingerprint = some digest; last_seen_at = now }) db.devices;
    },
  )

unfoldable pub set_shard_state : Text → ShardState → ShardRow → ShardRow
set_shard_state id state r = if r.device_id == id then record r { state = state } else r

unfoldable pub set_device_status : (now : Text) → Text → DeviceStatus → Tables → Outcome (Unit {0})
set_device_status now id status db = do
  reject_if (not (is_present (device_row db id))) (device_not_found (quoting "" id))
  ok (
    tt,
    record db {
      devices = update_device id (λ d. record d { status = status; last_seen_at = now }) db.devices;
      device_shards = map (set_shard_state id (shard_state_from status)) db.device_shards;
    },
  )

abbrev pub revoke_device : (now : Text) → Text → Tables → Outcome (Unit {0})
revoke_device now id db = set_device_status now id DeviceStatus.revoked db

unfoldable pub heartbeat_device : (now : Text) → Text → Tables → Outcome (Unit {0})
heartbeat_device now id db = do
  reject_if (not (any (λ (d : Device). is_active_device d.status && d.device_id == id) db.devices))
      (device_not_found (quoting "" id))
  ok (
    tt,
    record db {
      devices =
          map
            (λ (d : Device).
              if is_active_device d.status && d.device_id == id
              then record d { last_seen_at = now }
              else d)
            db.devices;
    },
  )

-- The foreign key wants the actor's device.
unfoldable pub register_actor : (now : Text) → Actor → Tables → Outcome Text
register_actor now actor db = do
  reject_if (is_present (actor_row db actor.actor_id)) constraint_failed
  reject_if (not (is_present (device_row db actor.device_id))) constraint_failed
  ok (actor.actor_id, record db { actors = record actor { recorded_at = now } ∷ db.actors })

-- The rows of the first device, with its actor; `digest` is that of the device's token.
unfoldable pub bootstrap_with_tx :
    (now digest : Text) → Device → Actor → Tables → Outcome (Text × Text)
bootstrap_with_tx now digest device actor db = do
  reject_if (is_present (device_row db device.device_id)) constraint_failed
  reject_if (is_present (actor_row db actor.actor_id)) constraint_failed
  let first : Device = record device {
    first_seen_at = now;
    last_seen_at = now;
    credential_fingerprint = some digest;
  }
  ok (
    (device.device_id, actor.actor_id),
    record db {
      devices = first ∷ db.devices;
      actors = record actor { recorded_at = now; device_id = device.device_id } ∷ db.actors;
      device_shards = insert_device_shard_row device.device_id device.status now db.device_shards;
    },
  )

-- The first device, with an operator of the id `actor_id`.
unfoldable pub bootstrap :
    (now digest actor_id : Text) → Device → ActorKind → Tables → Outcome (Text × Text)
bootstrap now digest actor_id device actor_kind db = do
  reject_if (not (is_empty db.devices))
      (bootstrap_rejected (words "bootstrap requires an empty device registry"))
  let actor : Actor = record {
    actor_id = actor_id;
    device_id = device.device_id;
    tool_profile = operator;
    actor_kind = actor_kind;
    provider_model = none;
    recorded_at = [];
  }
  bootstrap_with_tx now digest device actor db

unfoldable pub ensure_actor_profile : Option Actor → Bool → Verdict
ensure_actor_profile actor false = ok tt
ensure_actor_profile actor true = do
  a ← ok_or actor (authorization_denied (words "actor required"))
  reject_if (not (is_full a.tool_profile))
      (authorization_denied (words "actor lacks operator profile"))
