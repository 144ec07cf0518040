-- ===== src/Registry/Grants/Access.antt =====
-- src/store.rs: what holds when the registry lets a profile into a store.
use mnemes.Prelude.{
  ℕ, ◌≡◌, refl, sym, Option, none, some, List, not, false, ◌↔◌, arith, ok, >>=-eq-ok, ok_injective,
  ok_or, reject_if, reject_unless_iff,
}
use mathlib.Core.Path.{subst}
use mnemes.Prelude.Text.{Text}
use mnemes.Error.{MnemesError}
use mnemes.Identity.{Device, DeviceStatus}
use mnemes.Profiles.Scope.{
  MemoryProfileId, MemoryProfile, MemoryProfileStatus, MemoryStoreIdentity, parse_profile_id,
  store_identity_new,
}
use mnemes.Profiles.Access.{MemoryAccessGrant, MemoryAccessEffect, is_active_profile}
use mnemes.Profiles.Access.Laws.{MayAccess, authorize_memory_access_iff}
use mnemes.Registry.{Tables, is_active_device, device_row, profile_row, store_row}
use mnemes.Registry.Grants.{
  memory_grants_for_profile_store, authorize_store_access, requesting_profile, check_owner,
  target_identity,
}

-- A device that is there and active.
abbrev pub IsActiveDevice : Tables → Text → Type 0
IsActiveDevice db id = (d : Device) × (device_row db id ≡ some d) × (d.status ≡ DeviceStatus.active)

-- The profile that asks: its row, under its parsed id, with an active device.
pub record Asks (db : Tables) (requester : MemoryProfileId) (p : MemoryProfile) : Type 0 where
  pub row : MemoryProfile
  pub stored : profile_row db requester ≡ some row
  pub parsed : parse_profile_id row.profile_id.as_str ≡ ok p.profile_id
  pub same_status : p.status ≡ row.status
  pub device : IsActiveDevice db row.owner_device_id

-- The owner of a store: an active device and an active profile.
pub record IsOwned (db : Tables) (store : MemoryStoreIdentity) : Type 0 where
  pub device : IsActiveDevice db store.owner_device_id
  pub profile : MemoryProfile
  pub stored : profile_row db store.profile_id ≡ some profile
  pub active : profile.status ≡ MemoryProfileStatus.active

-- A store as its row identifies it: a store identity of its parts, with its status.
pub record IsTarget (db : Tables) (store_id : Text) (store : MemoryStoreIdentity) : Type 0 where
  pub row : MemoryStoreIdentity
  pub stored : store_row db store_id ≡ some row
  pub owner : MemoryProfileId
  pub parsed : parse_profile_id row.profile_id.as_str ≡ ok owner
  pub identity : MemoryStoreIdentity
  pub rebuilt :
      store_identity_new row.store_id owner row.owner_device_id row.namespace row.relative_path
      ≡ ok identity
  pub same : store ≡ record identity { status = row.status; created_at = row.created_at }

ok_or-eq-ok {ℓ} :
    {A : Type ℓ} (o : Option A) (e : MnemesError) (a : A) → ok_or o e ≡ ok a → o ≡ some a
ok_or-eq-ok none e a h = cc
ok_or-eq-ok (some b) e a h = cc (ok_injective h)

device_iff : (s : DeviceStatus) → (not (is_active_device s) ≡ false) ↔ (s ≡ DeviceStatus.active)
device_iff s = ground arith

profile_iff :
    (s : MemoryProfileStatus)
    → (not (is_active_profile s) ≡ false) ↔ (s ≡ MemoryProfileStatus.active)
profile_iff s = ground arith

requesting_profile-Asks :
    (db : Tables) (requester : MemoryProfileId) (p : MemoryProfile)
    → requesting_profile requester db ≡ ok p
    → Asks db requester p
unfolding requesting_profile
requesting_profile-Asks db requester p h =
    let (profile, f1, h1) = >>=-eq-ok (ok_or (profile_row db requester) _) _ h in
    let (subject, f2, h2) = >>=-eq-ok (parse_profile_id profile.profile_id.as_str) _ h1 in
    let (d, f3, h3) = >>=-eq-ok (ok_or (device_row db profile.owner_device_id) _) _ h2 in
    let (u, f4, h4) = >>=-eq-ok (reject_if (not (is_active_device d.status)) _) _ h3 in
    subst (Asks db requester) (ok_injective h4) (record {
      row = profile;
      stored = ok_or-eq-ok _ _ profile f1;
      parsed = f2;
      same_status = refl;
      device = (d, ok_or-eq-ok _ _ d f3, (reject_unless_iff _ _ (device_iff d.status)).0 f4);
    })

check_owner-IsOwned :
    (db : Tables) (store : MemoryStoreIdentity) → check_owner store db ≡ ok tt → IsOwned db store
unfolding check_owner
check_owner-IsOwned db s h =
    let (d, f1, h1) = >>=-eq-ok (ok_or (device_row db s.owner_device_id) _) _ h in
    let (u, f2, h2) = >>=-eq-ok (reject_if (not (is_active_device d.status)) _) _ h1 in
    let (p, f3, h3) = >>=-eq-ok (ok_or (profile_row db s.profile_id) _) _ h2 in
    record {
      device = (d, ok_or-eq-ok _ _ d f1, (reject_unless_iff _ _ (device_iff d.status)).0 f2);
      profile = p;
      stored = ok_or-eq-ok _ _ p f3;
      active = (reject_unless_iff _ _ (profile_iff p.status)).0 h3;
    }

target_identity-IsTarget :
    (db : Tables) (store_id : Text) (store : MemoryStoreIdentity)
    → target_identity store_id db ≡ ok store
    → IsTarget db store_id store
unfolding target_identity
target_identity-IsTarget db store_id store h =
    let (s, f1, h1) = >>=-eq-ok (ok_or (store_row db store_id) _) _ h in
    let (owner, f2, h2) = >>=-eq-ok (parse_profile_id s.profile_id.as_str) _ h1 in
    let (identity, f3, h3) =
      >>=-eq-ok (store_identity_new s.store_id owner s.owner_device_id s.namespace s.relative_path)
        _ h2 in
    record {
      row = s;
      stored = ok_or-eq-ok _ _ s f1;
      owner = owner;
      parsed = f2;
      identity = identity;
      rebuilt = f3;
      same = sym (ok_injective h3);
    }

-- The rows that a decision stands on, and the decision.
pub record LetsIn (db : Tables) (requester : MemoryProfileId) (store_id namespace : Text)
    (effect : MemoryAccessEffect) (at : ℕ) : Type 0 where
  pub profile : MemoryProfile
  pub asks : Asks db requester profile
  pub store : MemoryStoreIdentity
  pub target : IsTarget db store_id store
  pub owned : IsOwned db store
  pub grants : List MemoryAccessGrant
  pub granted : memory_grants_for_profile_store requester store_id db ≡ ok grants
  pub may : MayAccess requester profile store grants effect namespace at

-- The registry lets a profile into a store only if the requesting profile, the store, and the store's
-- owner profile are stored, the devices of both sides and the owner profile are active, and on the
-- stored grants the decision is for the access.
pub authorize-LetsIn :
    (db : Tables) (requester : MemoryProfileId) (store_id namespace : Text)
    (effect : MemoryAccessEffect) (at : ℕ)
    → authorize_store_access requester store_id namespace effect at db ≡ ok tt
    → LetsIn db requester store_id namespace effect at
unfolding authorize_store_access
authorize-LetsIn db requester store_id namespace effect at h =
    let (profile, f1, h1) = >>=-eq-ok (requesting_profile requester db) _ h in
    let (store, f2, h2) = >>=-eq-ok (target_identity store_id db) _ h1 in
    let (u, f3, h3) = >>=-eq-ok (check_owner store db) _ h2 in
    let (grants, f4, last) =
      >>=-eq-ok (memory_grants_for_profile_store requester store_id db) _ h3 in
    record {
      profile = profile;
      asks = requesting_profile-Asks db requester profile f1;
      store = store;
      target = target_identity-IsTarget db store_id store f2;
      owned = check_owner-IsOwned db store f3;
      grants = grants;
      granted = f4;
      may = (authorize_memory_access_iff requester profile store grants effect namespace at).0 last;
    }
