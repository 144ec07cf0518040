-- ===== src/Profiles/Access/Laws.antt =====
-- src/profile_store.rs: the access decision is the one that the grants describe.
use mnemes.Profiles.Scope.Laws.{IsScopeText, validate_text_iff}
use mnemes.Prelude.{
  some, false, inl, inr, Bool-cases, refl, reject_unless_iff, ℕ, ◌<◌, ◌≤◌, ◌≡◌, ◌↔◌, ◌⊎◌, true,
  Option, none, List, Any, arith, leb, ltb, list_eq, list_beq_iff, ok, then_iff, and_iff,
  either_iff, any_iff, accept_iff, reject_ne_iff, not, reject_if,
}
use mnemes.Prelude.Text.{Text}
use mnemes.Error.{MnemesError}
use mnemes.Profiles.Scope.{
  MemoryProfileId, MemoryProfile, MemoryProfileStatus, MemoryStoreIdentity, MemoryStoreStatus,
}
use mnemes.Profiles.Access.{
  grant_validate, precedes, MemoryAccessEffect, MemoryAccessGrant, effect_eq, effect_beq_iff,
  is_none, is_active_profile, is_active_store, allows, grant_covers, authorize_memory_access,
}

-- A grant that was not revoked, for this profile, store, namespace, effect and time.
pub record Covers (requester : MemoryProfileId) (store : MemoryStoreIdentity)
    (effect : MemoryAccessEffect) (namespace : Text) (at : ℕ) (g : MemoryAccessGrant) : Type 0 where
  pub grantee : g.grantee_profile_id.as_str ≡ requester.as_str
  pub target : g.store_id ≡ store.store_id
  pub live : g.revoked_at ≡ none
  pub purpose : g.effect ≡ effect
  pub scope : g.namespace ≡ namespace
  pub begun : g.valid_from ≤ at
  pub running : at < g.expires_at

-- The decision that the contract describes.
pub record MayAccess (requester : MemoryProfileId) (profile : MemoryProfile)
    (store : MemoryStoreIdentity) (grants : List MemoryAccessGrant) (effect : MemoryAccessEffect)
    (namespace : Text) (at : ℕ) : Type 0 where
  pub subject : profile.profile_id.as_str ≡ requester.as_str
  pub profile_active : profile.status ≡ MemoryProfileStatus.active
  pub store_active : store.status ≡ MemoryStoreStatus.active
  pub exact : store.namespace ≡ namespace
  pub owned_or_granted :
      (store.profile_id.as_str ≡ requester.as_str)
      ⊎ Any (Covers requester store effect namespace at) grants

none_iff : (o : Option ℕ) → (is_none o ≡ true) ↔ (o ≡ none)
none_iff o = ground arith

leb_iff : (a b : ℕ) → (leb a b ≡ true) ↔ (a ≤ b)
leb_iff a b = ground arith

ltb_iff : (a b : ℕ) → (ltb a b ≡ true) ↔ (a < b)
ltb_iff a b = ground arith

profile_iff :
    (s : MemoryProfileStatus) (x : MnemesError)
    → (reject_if (not (is_active_profile s)) x ≡ ok tt) ↔ (s ≡ MemoryProfileStatus.active)
profile_iff s x = ground arith

store_iff :
    (s : MemoryStoreStatus) (x : MnemesError)
    → (reject_if (not (is_active_store s)) x ≡ ok tt) ↔ (s ≡ MemoryStoreStatus.active)
store_iff s x = ground arith

-- One grant is found exactly when it covers the request.
pub grant_covers_iff :
    (requester : MemoryProfileId) (store : MemoryStoreIdentity) (effect : MemoryAccessEffect)
    (namespace : Text) (at : ℕ) (g : MemoryAccessGrant)
    → (grant_covers requester store effect namespace at g ≡ true)
      ↔ Covers requester store effect namespace at g
unfolding grant_covers allows
grant_covers_iff requester store effect namespace at g =
    let tests =
      and_iff _ _
        (and_iff _ _ (list_beq_iff g.grantee_profile_id.as_str requester.as_str)
          (list_beq_iff g.store_id store.store_id))
        (and_iff _ _
          (and_iff _ _
            (and_iff _ _ (and_iff _ _ (none_iff g.revoked_at) (effect_beq_iff g.effect effect))
              (list_beq_iff g.namespace namespace))
            (leb_iff g.valid_from at))
          (ltb_iff at g.expires_at)) in
    (
      λ h.
          let ((grantee, target), ((((live, purpose), scope), begun), running)) = tests.0 h in
          record {
            grantee = grantee;
            target = target;
            live = live;
            purpose = purpose;
            scope = scope;
            begun = begun;
            running = running;
          },
      λ c. tests.1 ((c.grantee, c.target), ((((c.live, c.purpose), c.scope), c.begun), c.running)),
    )

-- A profile may access a store exactly when it is the active subject, the store is active and has
-- the requested namespace, and the profile owns it or holds a grant that covers the request.
pub authorize_memory_access_iff :
    (requester : MemoryProfileId) (profile : MemoryProfile) (store : MemoryStoreIdentity)
    (grants : List MemoryAccessGrant) (effect : MemoryAccessEffect) (namespace : Text) (at : ℕ)
    → (authorize_memory_access requester profile store grants effect namespace at ≡ ok tt)
      ↔ MayAccess requester profile store grants effect namespace at
unfolding authorize_memory_access
authorize_memory_access_iff requester profile store grants effect namespace at =
    let steps = then_iff _ _ (reject_ne_iff profile.profile_id.as_str requester.as_str _) (
      then_iff _ _ (profile_iff profile.status _) (
        then_iff _ _ (store_iff store.status _) (
          then_iff _ _ (reject_ne_iff store.namespace namespace _) (
            accept_iff _ _ (
              either_iff _ _ (list_beq_iff store.profile_id.as_str requester.as_str)
                (any_iff _ (grant_covers_iff requester store effect namespace at) grants)))))) in
    (
      λ h.
          let (subject, (profile_active, (store_active, (exact, granted)))) = steps.0 h in
          record {
            subject = subject;
            profile_active = profile_active;
            store_active = store_active;
            exact = exact;
            owned_or_granted = granted;
          },
      λ m. steps.1 (m.subject, (m.profile_active, (m.store_active, (m.exact, m.owned_or_granted)))),
    )

-- A grant of bounded texts, which runs for some time and was not revoked before it began.
pub record IsGrant (g : MemoryAccessGrant) : Type 0 where
  pub target : IsScopeText 128 g.store_id
  pub scope : IsScopeText 128 g.namespace
  pub runs : g.valid_from < g.expires_at
  pub revoked_later : (t : ℕ) → g.revoked_at ≡ some t → g.valid_from ≤ t

pub runs_iff : (a b : ℕ) → (leb b a ≡ false) ↔ (a < b)
runs_iff a b = ground arith

pub precedes_iff :
    (o : Option ℕ) (from : ℕ) → (precedes o from ≡ false) ↔ ((t : ℕ) → o ≡ some t → from ≤ t)
precedes_iff none from = (λ h t e. cc, λ h. refl)
precedes_iff (some u) from =
    (λ h t e. ground arith, λ h. let late : from ≤ u = h u refl in ground arith)

grant_validate_iff : (g : MemoryAccessGrant) → (grant_validate g ≡ ok tt) ↔ IsGrant g
unfolding grant_validate
grant_validate_iff g =
    let steps = then_iff _ _ (validate_text_iff g.store_id "store_id" 128) (
      then_iff _ _ (validate_text_iff g.namespace "namespace" 128) (
        then_iff _ _ (reject_unless_iff _ _ (runs_iff g.valid_from g.expires_at))
          (reject_unless_iff _ _ (precedes_iff g.revoked_at g.valid_from)))) in
    (
      λ h.
          let (target, (scope, (runs, later))) = steps.0 h in
          record { target = target; scope = scope; runs = runs; revoked_later = later },
      λ w. steps.1 (w.target, (w.scope, (w.runs, w.revoked_later))),
    )

-- A grant that validates covers its store for its grantee, effect and namespace at its first
-- moment if it has no revocation time, and with a revocation time it covers no request at any time.
pub valid_grant_opens :
    (g : MemoryAccessGrant) (store : MemoryStoreIdentity)
    → grant_validate g ≡ ok tt
    → g.store_id ≡ store.store_id
    → ((g.revoked_at ≡ none)
        → grant_covers g.grantee_profile_id store g.effect g.namespace g.valid_from g ≡ true)
      × ((t at : ℕ) (requester : MemoryProfileId) (effect : MemoryAccessEffect) (namespace : Text)
          → g.revoked_at ≡ some t
          → grant_covers requester store effect namespace at g ≡ false)
valid_grant_opens g store valid same =
    let w = (grant_validate_iff g).0 valid in
    (
      λ live.
          (grant_covers_iff g.grantee_profile_id store g.effect g.namespace g.valid_from g).1
            (record {
              grantee = refl;
              target = same;
              live = live;
              purpose = refl;
              scope = refl;
              begun = omega arith;
              running = w.runs;
            }),
      λ t at requester effect namespace revoked.
          refused requester effect namespace at t revoked
            (Bool-cases (grant_covers requester store effect namespace at g)),
    )
  where
    refused :
        (requester : MemoryProfileId) (effect : MemoryAccessEffect) (namespace : Text) (at t : ℕ)
        → g.revoked_at ≡ some t
        → (grant_covers requester store effect namespace at g ≡ true)
          ⊎ (grant_covers requester store effect namespace at g ≡ false)
        → grant_covers requester store effect namespace at g ≡ false
    refused requester effect namespace at t revoked (inl found) =
        let c = (grant_covers_iff requester store effect namespace at g).0 found in cc (c.live)
    refused requester effect namespace at t revoked (inr h) = h
