-- ===== src/Registry.antt =====
-- src/store.rs: the registry of the control plane. Its tables are lists of rows, the newest first; a
-- statement that violates a constraint of the schema fails. Each operation writes by one statement at
-- its end, so an operation that fails changes nothing. `now` is the server's clock.
pub mod Devices
pub mod Lifecycle
pub mod Tokens
pub mod Grants
pub mod Bindings
pub mod Snapshots
pub mod Commands
mod Tests
use mnemes.Prelude.{
  ℕ, ◌-◌, ◌+◌, ◌^◌, Bool, true, false, ◌&&◌, ◌||◌, not, Option, none, some, List, [], ◌∷◌, any, ltb,
  leb, ◌==◌, ◌!=◌, list_eq, if◌then◌else◌, Result, ok, err, ◌>>=◌, ◌>>◌, reject_if, ok_or,
}
use mnemes.Prelude.Text.{Text}
use mnemes.Prelude.Int.{ℤ, pos, negsuc}
use mnemes.Error.{MnemesError, database, words}
use mnemes.Identity.{Device, Actor, DeviceStatus}
use mnemes.Shards.{ShardState}
use mnemes.Profiles.Scope.{Verdict, MemoryProfileId, MemoryProfile, MemoryStoreIdentity}
use mnemes.Profiles.Access.{MemoryAccessEffect}
use mnemes.Profiles.Binding.{ActorProfileBinding}

-- A row of `memory_access_grants`: its times are SQLite's signed integers.
pub record GrantRow : Type 0 where
  pub grant_id : Text
  pub grantee_profile_id : MemoryProfileId
  pub store_id : Text
  pub namespace : Text
  pub effect : MemoryAccessEffect
  pub issued_by_actor_id : Text
  pub valid_from : ℤ
  pub expires_at : ℤ
  pub revoked_at : Option ℤ
  pub created_at : Text

-- A row of `device_shards`, less its statistics.
pub record ShardRow : Type 0 where
  pub device_id : Text
  pub relative_path : Text
  pub state : ShardState
  pub created_at : Text

-- The times of a binding are written after a test of their range, so the rows hold them as they are.
pub record Tables : Type 0 where
  pub devices : List Device
  pub device_shards : List ShardRow
  pub actors : List Actor
  pub memory_profiles : List MemoryProfile
  pub memory_stores : List MemoryStoreIdentity
  pub memory_access_grants : List GrantRow
  pub actor_profile_bindings : List ActorProfileBinding

-- The result, with the tables after it.
abbrev pub Outcome {ℓ} : Type ℓ → Type ℓ
Outcome A = Result MnemesError (A × Tables)

-- The row that a condition on the primary key selects.
unfoldable pub find_row {ℓ} : {A : Type ℓ} → (A → Bool) → List A → Option A
find_row test [] = none
find_row test (r ∷ rows) = let rest = find_row test rows in if test r then some r else rest

unfoldable pub select {ℓ} : {A : Type ℓ} → (A → Bool) → List A → List A
select test [] = []
select test (r ∷ rows) = let rest = select test rows in if test r then r ∷ rest else rest

abbrev pub is_active_device : DeviceStatus → Bool
is_active_device DeviceStatus.active = true
is_active_device _ = false

unfoldable pub device_row : Tables → Text → Option Device
device_row db id = find_row (λ (d : Device). d.device_id == id) db.devices

unfoldable pub actor_row : Tables → Text → Option Actor
actor_row db id = find_row (λ (a : Actor). a.actor_id == id) db.actors

unfoldable pub profile_row : Tables → MemoryProfileId → Option MemoryProfile
profile_row db id =
    find_row (λ (p : MemoryProfile). p.profile_id.as_str == id.as_str) db.memory_profiles

unfoldable pub store_row : Tables → Text → Option MemoryStoreIdentity
store_row db id = find_row (λ (s : MemoryStoreIdentity). s.store_id == id) db.memory_stores

-- A violated constraint is an error of the crate rusqlite.
abbrev pub constraint_failed : MnemesError
constraint_failed = database (words "constraint failed")

-- `query_row` without `optional` on a query that gives no row.
abbrev pub no_rows : MnemesError
no_rows = database (words "query returned no rows")

-- `i64::try_from` of a u64, and `u64::try_from` of an i64.
abbrev pub i64_try_from : MnemesError → ℕ → Result MnemesError ℕ
i64_try_from e n = if ltb n (2 ^ 63) then ok n else err e

abbrev pub u64_try_from : MnemesError → ℤ → Result MnemesError ℕ
u64_try_from e (pos n) = ok n
u64_try_from e (negsuc n) = err e

abbrev pub empty_tables : Tables
empty_tables = record {
  devices = [];
  device_shards = [];
  actors = [];
  memory_profiles = [];
  memory_stores = [];
  memory_access_grants = [];
  actor_profile_bindings = [];
}
