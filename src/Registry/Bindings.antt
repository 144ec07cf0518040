-- ===== src/Registry/Bindings.antt =====
-- src/store.rs: actors are bound to the profiles that they act for, bindings are revoked, and the
-- one binding in force is resolved.
pub mod Apart
pub mod Laws
use mnemes.Prelude.{
  ℕ, String, Bool, true, false, ◌&&◌, ◌||◌, not, Option, none, some, List, [], ◌∷◌, map, any, ltb,
  leb, ◌==◌, ◌!=◌, nat_eq, list_eq, if◌then◌else◌, Result, ok, err, ◌>>=◌, ◌>>◌, reject_if, ok_or,
}
use mnemes.Prelude.Bytes.{Bytes}
use mnemes.Prelude.Text.{Text}
use mnemes.Prelude.Sort.{sort_by, text_le}
use mnemes.Error.{MnemesError, actor_profile_binding_denied, words}
use mnemes.Identity.{Device, Actor, DeviceStatus}
use mnemes.Profiles.Scope.{
  Verdict, MemoryProfileId, MemoryProfile, MemoryProfileStatus, parse_profile_id,
}
use mnemes.Profiles.Access.{is_none, precedes, is_active_profile}
use mnemes.Profiles.Binding.{ActorProfileBinding, binding_validate}
use mnemes.Registry.{
  Tables, Outcome, select, is_active_device, device_row, actor_row, profile_row, constraint_failed,
  i64_try_from,
}
use mnemes.Registry.Lifecycle.{active_owner}
use mnemes.Registry.Grants.{is_active_operator}

abbrev pub denied : String → MnemesError
denied message = actor_profile_binding_denied (words message)

-- An actor's device.
unfoldable pub actor_device : Tables → Text → Option Device
actor_device db actor_id = elim (actor_row db actor_id) [
  | none ↦ none
  | some a ↦ device_row db a.device_id
]

-- `actor_id = ?1 AND revoked_at IS NULL AND valid_from < ?2 AND expires_at > ?3`
unfoldable pub overlaps : ActorProfileBinding → ActorProfileBinding → Bool
overlaps new b =
    b.actor_id == new.actor_id
    && is_none b.revoked_at
    && ltb b.valid_from new.expires_at
    && ltb new.valid_from b.expires_at

-- The primary key, and `UNIQUE(actor_id, binding_epoch)`.
unfoldable pub same_key : ActorProfileBinding → ActorProfileBinding → Bool
same_key new b =
    b.binding_id == new.binding_id
    || b.actor_id == new.actor_id && b.binding_epoch == new.binding_epoch

-- `WHERE binding_id = ?2 AND revoked_at IS NULL`
unfoldable pub is_open_binding : Text → ActorProfileBinding → Bool
is_open_binding id b = b.binding_id == id && is_none b.revoked_at

unfoldable pub close_binding : Text → ℕ → ActorProfileBinding → ActorProfileBinding
close_binding id t b = if is_open_binding id b then record b { revoked_at = some t } else b

unfoldable pub revoke_actor_profile_binding : Text → ℕ → Tables → Outcome (Unit {0})
revoke_actor_profile_binding id revoked_at db = do
  t ← i64_try_from (denied "binding revoked_at exceeds SQLite range") revoked_at
  reject_if
      (any (λ (b : ActorProfileBinding). is_open_binding id b && ltb t b.valid_from)
        db.actor_profile_bindings)
      constraint_failed
  reject_if (not (any (is_open_binding id) db.actor_profile_bindings))
      (denied "binding does not exist or is already revoked")
  ok (tt, record db { actor_profile_bindings = map (close_binding id t) db.actor_profile_bindings })

-- A row of the query that resolves an actor: a binding with what it is joined with.
pub record JoinedBinding : Type 0 where
  pub binding : ActorProfileBinding
  pub device_id : Text
  pub device_status : DeviceStatus
  pub profile_owner : Text
  pub profile_status : MemoryProfileStatus
  pub owner_status : DeviceStatus

unfoldable pub join_binding : Tables → ActorProfileBinding → Option JoinedBinding
join_binding db b = elim (actor_row db b.actor_id) [
  | none ↦ none
  | some a ↦ elim (device_row db a.device_id) [
    | none ↦ none
    | some ad ↦ elim (profile_row db b.profile_id) [
      | none ↦ none
      | some p ↦ elim (device_row db p.owner_device_id) [
        | none ↦ none
        | some pd ↦ some (record {
          binding = b;
          device_id = a.device_id;
          device_status = ad.status;
          profile_owner = p.owner_device_id;
          profile_status = p.status;
          owner_status = pd.status;
        })
      ]
    ]
  ]
]

abbrev pub cons_some {ℓ} : {A : Type ℓ} → Option A → List A → List A
cons_some none rest = rest
cons_some (some a) rest = a ∷ rest

unfoldable pub join_all : Tables → List ActorProfileBinding → List JoinedBinding
join_all db [] = []
join_all db (b ∷ bs) = cons_some (join_binding db b) (join_all db bs)

-- `actor_id = ?1 AND revoked_at IS NULL AND valid_from <= ?2 AND expires_at > ?2`
unfoldable pub in_force : Text → ℕ → ActorProfileBinding → Bool
in_force actor_id at b =
    b.actor_id == actor_id && is_none b.revoked_at && leb b.valid_from at && ltb at b.expires_at

-- `ORDER BY binding_epoch ASC, binding_id ASC`
abbrev pub binding_le : ActorProfileBinding → ActorProfileBinding → Bool
binding_le a b =
    ltb a.binding_epoch b.binding_epoch
    || a.binding_epoch == b.binding_epoch && text_le a.binding_id b.binding_id

-- `rows.len() != 1`
abbrev pub exactly_one {ℓ} : {A : Type ℓ} → List A → Result MnemesError A
exactly_one [] = err (denied "no active binding exists for this actor")
exactly_one (r ∷ []) = ok r
exactly_one (r ∷ s ∷ rows) = err (denied "multiple active bindings exist for this actor")

module _ (sha256_hex : Bytes → Text) where
  unfoldable pub bind_actor_profile : (now : Text) → ActorProfileBinding → Tables → Outcome Text
  bind_actor_profile now binding db = do
    binding_validate sha256_hex binding
    valid_from ← i64_try_from (denied "binding valid_from exceeds SQLite range") binding.valid_from
    expires_at ← i64_try_from (denied "binding expires_at exceeds SQLite range") binding.expires_at
    binding_epoch ← i64_try_from (denied "binding epoch exceeds SQLite range") binding.binding_epoch
    reject_if (not (is_active_operator db binding.issued_by_actor_id))
        (denied "binding transitions require an active operator actor")
    device ← ok_or (actor_device db binding.actor_id) (denied "binding actor does not exist")
    reject_if (not (is_active_device device.status) || device.device_id != binding.owner_device_id)
        (denied "binding actor must belong to the active profile owner device")
    owner ←
        ok_or (active_owner db binding.profile_id)
          (denied "binding profile is not active or does not exist")
    reject_if (not (is_active_device owner.status) || owner.device_id != binding.owner_device_id)
        (denied "binding owner device must equal the active profile owner")
    reject_if (any (overlaps binding) db.actor_profile_bindings)
        (denied "an overlapping active binding already exists for this actor")
    reject_if (any (same_key binding) db.actor_profile_bindings) constraint_failed
    ok (
      binding.binding_id,
      record db {
        actor_profile_bindings =
            record binding { revoked_at = none; recorded_at = now } ∷ db.actor_profile_bindings;
      },
    )

  -- What is read from the one row, and the tests on it.
  unfoldable pub admit_row : JoinedBinding → Result MnemesError ActorProfileBinding
  admit_row row = do
    profile_id ← parse_profile_id row.binding.profile_id.as_str
    let binding : ActorProfileBinding = record row.binding { profile_id = profile_id }
    binding_validate sha256_hex binding
    reject_if
        (row.device_id != binding.owner_device_id
          || row.profile_owner != binding.owner_device_id
          || not (is_active_device row.device_status)
          || not (is_active_profile row.profile_status)
          || not (is_active_device row.owner_status))
        (denied "binding actor, profile, and owner-device lifecycle relation is invalid")
    ok binding

  unfoldable pub resolve_actor_profile : Text → ℕ → Tables → Result MnemesError ActorProfileBinding
  resolve_actor_profile actor_id time db = do
    at ← i64_try_from (denied "authorization time exceeds SQLite range") time
    row ←
        exactly_one (
          join_all db
            (sort_by binding_le (select (in_force actor_id at) db.actor_profile_bindings)))
    admit_row row
