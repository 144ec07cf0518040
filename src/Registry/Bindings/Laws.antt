-- ===== src/Registry/Bindings/Laws.antt =====
-- src/store.rs: binding keeps the bindings apart, so an actor resolves to one profile or to none.
use mnemes.Prelude.{
  ℕ, ◌^◌, ◌<◌, ◌≡◌, refl, sym, ◌↔◌, ◌⊎◌, inl, inr, true, false, Bool-cases, not, Option-cases, none,
  some, [], ◌∷◌, map, any, Any, arith, ltb, list_eq, ne_iff, or_iff, reject_if, reject_unless_iff,
  ok, >>=-eq-ok, ok_injective,
}
use mathlib.Core.Path.{subst}
use mnemes.Prelude.Bytes.{Bytes}
use mnemes.Prelude.Text.{Text}
use mnemes.Prelude.Sort.{insert_by, sort_by}
use mnemes.Error.{MnemesError}
use mnemes.Identity.{DeviceStatus}
use mnemes.Profiles.Scope.{MemoryProfileStatus, parse_profile_id}
use mnemes.Profiles.Access.{is_active_profile}
use mnemes.Profiles.Binding.{ActorProfileBinding, binding_validate}
use mnemes.Profiles.Binding.Laws.{IsBinding, binding_validate_iff}
use mnemes.Registry.{Tables, is_active_device, select, i64_try_from}
use mnemes.Registry.Bindings.{
  overlaps, close_binding, bind_actor_profile, revoke_actor_profile_binding, resolve_actor_profile,
  admit_row, JoinedBinding, join_binding, join_all, in_force, exactly_one, binding_le,
}
use mnemes.Registry.Bindings.Apart.{
  NoOverlap, NoOverlap-closed, clear_of_all, select-in_force, select-member, InForce, in_force_iff,
}

-- In tables whose bindings do not overlap, a binding in force decides what its actor resolves to.
pub resolve-member :
    (sha256_hex : Bytes → Text) (db : Tables) (b : ActorProfileBinding) (row : JoinedBinding)
    (at : ℕ)
    → NoOverlap db.actor_profile_bindings
    → Any (λ c. c ≡ b) db.actor_profile_bindings
    → InForce b.actor_id at b
    → join_binding db b ≡ some row
    → at < 2 ^ 63
    → resolve_actor_profile sha256_hex b.actor_id at db ≡ admit_row sha256_hex row
unfolding resolve_actor_profile sort_by insert_by join_all
resolve-member sha256_hex db b row at apart member force joined small =
    let range : ltb at (2 ^ 63) ≡ true = ground arith in
    let one =
      select-member b.actor_id at b db.actor_profile_bindings apart member
        ((in_force_iff b.actor_id at b).1 force) in
    rw (range, one, joined) refl

device_iff : (s : DeviceStatus) → (not (is_active_device s) ≡ false) ↔ (s ≡ DeviceStatus.active)
device_iff s = ground arith

profile_iff :
    (s : MemoryProfileStatus)
    → (not (is_active_profile s) ≡ false) ↔ (s ≡ MemoryProfileStatus.active)
profile_iff s = ground arith

-- The row's binding, which validates and whose actor, profile and devices are as it says.
pub record IsAdmitted (sha256_hex : Bytes → Text) (row : JoinedBinding) (b : ActorProfileBinding)
    : Type 0 where
  pub same : b ≡ record row.binding { profile_id = b.profile_id }
  pub profile : parse_profile_id row.binding.profile_id.as_str ≡ ok b.profile_id
  pub valid : IsBinding sha256_hex b
  pub actor_owner : row.device_id ≡ b.owner_device_id
  pub profile_owner : row.profile_owner ≡ b.owner_device_id
  pub actor_device_active : row.device_status ≡ DeviceStatus.active
  pub profile_active : row.profile_status ≡ MemoryProfileStatus.active
  pub owner_device_active : row.owner_status ≡ DeviceStatus.active

pub admit_row-IsAdmitted :
    (sha256_hex : Bytes → Text) (row : JoinedBinding) (b : ActorProfileBinding)
    → admit_row sha256_hex row ≡ ok b
    → IsAdmitted sha256_hex row b
unfolding admit_row
admit_row-IsAdmitted sha256_hex row b h =
    let (p, parsed, rest) = >>=-eq-ok (parse_profile_id row.binding.profile_id.as_str) _ h in
    let c : ActorProfileBinding = record row.binding { profile_id = p } in
    let (u, valid, rest') = >>=-eq-ok (binding_validate sha256_hex c) _ rest in
    let (v, lives, last) = >>=-eq-ok (reject_if _ _) _ rest' in
    let e : c ≡ b = ok_injective last in
    let ((((owner, profile_owner), device), profile), owner_device) =
      (reject_unless_iff _ _ (
          or_iff _ _
            (or_iff _ _
              (or_iff _ _
                (or_iff _ _ (ne_iff row.device_id c.owner_device_id)
                  (ne_iff row.profile_owner c.owner_device_id))
                (device_iff row.device_status))
              (profile_iff row.profile_status))
            (device_iff row.owner_status))).0
        lives in
    subst (IsAdmitted sha256_hex row) e (record {
      same = refl;
      profile = parsed;
      valid = (binding_validate_iff sha256_hex c).0 valid;
      actor_owner = owner;
      profile_owner = profile_owner;
      actor_device_active = device;
      profile_active = profile;
      owner_device_active = owner_device;
    })

join_binding-binding :
    (db : Tables) (b : ActorProfileBinding) (row : JoinedBinding)
    → join_binding db b ≡ some row
    → row.binding ≡ b
unfolding join_binding
join_binding-binding db b row h = ground arith

i64_try_from-value : (e : MnemesError) (n m : ℕ) → i64_try_from e n ≡ ok m → (m ≡ n) × (n < 2 ^ 63)
i64_try_from-value e n m h = elim (Bool-cases (ltb n (2 ^ 63))) [
  | inl small ↦ let h' = rw small at h in (sym (ok_injective h'), ground arith)
  | inr large ↦ let h' = rw large at h in cc
]

-- A row of the query, read from a stored binding of the actor that is in force.
pub record IsRowFor (db : Tables) (actor_id : Text) (at : ℕ) (row : JoinedBinding) : Type 0 where
  pub stored : Any (λ c. c ≡ row.binding) db.actor_profile_bindings
  pub joined : join_binding db row.binding ≡ some row
  pub force : InForce actor_id at row.binding

from_selection :
    (db : Tables) (actor_id : Text) (at : ℕ) (row : JoinedBinding)
    → exactly_one
        (join_all db (sort_by binding_le (select (in_force actor_id at) db.actor_profile_bindings)))
      ≡ ok row
    → (select (in_force actor_id at) db.actor_profile_bindings ≡ [])
      ⊎ ((c : ActorProfileBinding) × (select (in_force actor_id at) db.actor_profile_bindings
            ≡ c ∷ [])
          × (in_force actor_id at c ≡ true)
          × Any (λ x. x ≡ c) db.actor_profile_bindings)
    → IsRowFor db actor_id at row
unfolding sort_by insert_by join_all
from_selection db actor_id at row h (inl e) = let h' = rw e at h in cc
from_selection db actor_id at row h (inr (c, e, force, member)) =
    let h' = rw e at h in
    elim (Option-cases (join_binding db c)) [
      | inl nothing ↦ let h'' = rw nothing at h' in cc
      | inr (r, joined) ↦
          let h'' = rw joined at h' in
          let joined' : join_binding db c ≡ some row = rw (ok_injective h'') at joined in
          let e' = sym (join_binding-binding db c row joined') in
          record {
            stored = subst (λ x. Any (λ y. y ≡ x) db.actor_profile_bindings) e' member;
            joined = subst (λ x. join_binding db x ≡ some row) e' joined';
            force = subst (InForce actor_id at) e' ((in_force_iff actor_id at c).0 force);
          }
    ]

-- Where the bindings do not overlap, what an actor resolves to is read from a stored binding of that
-- actor that is in force, and it is admitted: it validates, its profile and devices are active, and
-- its owner device is that of the actor and of the profile.
pub resolve-IsAdmitted :
    (sha256_hex : Bytes → Text) (db : Tables) (actor_id : Text) (at : ℕ) (b : ActorProfileBinding)
    → NoOverlap db.actor_profile_bindings
    → resolve_actor_profile sha256_hex actor_id at db ≡ ok b
    → (row : JoinedBinding) × IsRowFor db actor_id at row × IsAdmitted sha256_hex row b
unfolding resolve_actor_profile
resolve-IsAdmitted sha256_hex db actor_id at b apart h =
    let (at', range, h') = >>=-eq-ok (i64_try_from _ at) _ h in
    let (row, found, admitted) =
      >>=-eq-ok
        (exactly_one (
          join_all db
            (sort_by binding_le (select (in_force actor_id at') db.actor_profile_bindings))))
        _ h' in
    let same = (i64_try_from-value _ at at' range).0 in
    let here =
      from_selection db actor_id at' row found
        (select-in_force actor_id at' db.actor_profile_bindings apart) in
    (
      row,
      subst (λ n. IsRowFor db actor_id n row) same here,
      admit_row-IsAdmitted sha256_hex row b admitted,
    )

-- What the two writes leave in the tables.
pub bind-effect :
    (sha256_hex : Bytes → Text) (now : Text) (b : ActorProfileBinding) (db db' : Tables) (id : Text)
    → bind_actor_profile sha256_hex now b db ≡ ok (id, db')
    → (any (overlaps b) db.actor_profile_bindings ≡ false)
      × (record db {
        actor_profile_bindings =
            record b { revoked_at = none; recorded_at = now } ∷ db.actor_profile_bindings;
      }
          ≡ db')
unfolding bind_actor_profile
bind-effect sha256_hex now b db db' id h = ground arith

pub revoke-effect :
    (id : Text) (at : ℕ) (db db' : Tables)
    → revoke_actor_profile_binding id at db ≡ ok (tt, db')
    → record db { actor_profile_bindings = map (close_binding id at) db.actor_profile_bindings }
      ≡ db'
unfolding revoke_actor_profile_binding
revoke-effect id at db db' h = ground arith

pub bind-NoOverlap :
    (sha256_hex : Bytes → Text) (now : Text) (b : ActorProfileBinding) (db db' : Tables) (id : Text)
    → NoOverlap db.actor_profile_bindings
    → bind_actor_profile sha256_hex now b db ≡ ok (id, db')
    → NoOverlap db'.actor_profile_bindings
unfolding NoOverlap
bind-NoOverlap sha256_hex now b db db' id apart h =
    let (clear, e) = bind-effect sha256_hex now b db db' id h in
    subst (λ (t : Tables). NoOverlap t.actor_profile_bindings) e
      (clear_of_all now b db.actor_profile_bindings clear, apart)

pub revoke-NoOverlap :
    (id : Text) (at : ℕ) (db db' : Tables)
    → NoOverlap db.actor_profile_bindings
    → revoke_actor_profile_binding id at db ≡ ok (tt, db')
    → NoOverlap db'.actor_profile_bindings
revoke-NoOverlap id at db db' apart h =
    subst (λ (t : Tables). NoOverlap t.actor_profile_bindings) (revoke-effect id at db db' h)
      (NoOverlap-closed id at db.actor_profile_bindings apart)
