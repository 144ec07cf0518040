-- ===== src/Replication/TrustedKey/Admission.antt =====
-- src/replication/trusted_key.rs: what an admitted envelope shows.
use mnemes.Prelude.{
  ℕ, ◌≤◌, ◌≡◌, refl, ◌↔◌, inl, inr, true, false, not, ◌!=◌, ◌||◌, some, none, Option, arith, ok,
  err, ◌>>=◌, ◌>>◌, >>=-eq-ok, then_iff, reject_if, reject_if_iff, reject_ne_iff, reject_error, ltb,
  list_eq, ok_or, nat_beq,
}
use mnemes.Prelude.Bytes.{Bytes}
use mnemes.Replication.Roles.{role_eq, ArtifactKind, promotion, bootstrap}
use mnemes.Replication.Error.{
  ReplicationError, artifact_permission_mismatch, signer_not_admitted, key_revoked,
  key_lifecycle_outside_window, key_mismatch, role_mismatch,
}
use mnemes.Replication.Envelope.{MemoryMutationEnvelopeV1, signing_preimage}
use mnemes.Replication.Crypto.{Crypto}
use mnemes.Replication.Canonical.{validate_envelope}
use mnemes.Replication.Canonical.Laws.{IsValid, validate_envelope_iff}
use mnemes.Replication.TrustedKey.{
  AllowedArtifacts, single, recovery_bootstrap_and_promotion, TrustedKeyRecord, TrustedKeyRegistry,
  artifact_as_u8, allows, lookup, check_scope, check_record, validate_trusted_key,
  validate_admitted_envelope,
}

-- The kinds that a permission names.
pub data Permits : AllowedArtifacts → ArtifactKind → Type 0 where
  the_one : (k : ArtifactKind) → Permits (single k) k
  of_bootstrap : Permits recovery_bootstrap_and_promotion bootstrap
  of_promotion : Permits recovery_bootstrap_and_promotion promotion

same_kind : (j k : ArtifactKind) → nat_beq (artifact_as_u8 j) (artifact_as_u8 k) ≡ true → j ≡ k
same_kind j k h = ground arith

allows_sound : (p : AllowedArtifacts) (k : ArtifactKind) → allows p k ≡ true → Permits p k
unfolding allows
allows_sound (single j) k h = rw (same_kind j k h) (the_one k)
allows_sound recovery_bootstrap_and_promotion k h = grind (arith, of_bootstrap, of_promotion)

allows_complete : {p : AllowedArtifacts} {k : ArtifactKind} → Permits p k → allows p k ≡ true
unfolding allows
allows_complete (the_one k) = ground arith
allows_complete of_bootstrap = refl
allows_complete of_promotion = refl

-- The record of the registry speaks for the envelope.
pub record Binds (r : TrustedKeyRecord) (e : MemoryMutationEnvelopeV1) : Type 0 where
  pub key : r.public_key ≡ e.signer_public_key
  pub role : r.signer_role ≡ e.signer_role
  pub permission : Permits r.allowed_artifacts e.artifact_kind
  pub live : r.revoked ≡ false
  pub window : (r.activated_at ≤ e.observed_at) × (e.observed_at ≤ r.cutoff_at)
  pub scope :
      (e.home_device_id ≡ r.home_device_id)
      × (e.store_id ≡ r.store_id)
      × (e.namespace ≡ r.namespace)

permission_iff :
    (p : AllowedArtifacts) (k : ArtifactKind) (x : ReplicationError)
    → (reject_if (not (allows p k)) x ≡ ok tt) ↔ Permits p k
permission_iff p k x = (
  λ h. allows_sound p k (ground (arith, (reject_if_iff (not (allows p k)) x).0 h)),
  λ m. rw (allows_complete m),
)

window_iff :
    (at from to : ℕ) (x : ReplicationError)
    → (reject_if (ltb at from || ltb to at) x ≡ ok tt) ↔ ((from ≤ at) × (at ≤ to))
window_iff at from to x = ground arith

ok_or-ok :
    {A : Type 0} (o : Option A) (x : ReplicationError) {a : A} → ok_or o x ≡ ok a → o ≡ some a
ok_or-ok none x h = cc
ok_or-ok (some b) x h = ground arith

check_record_iff :
    (e : MemoryMutationEnvelopeV1) (r : TrustedKeyRecord) → (check_record e r ≡ ok tt) ↔ Binds r e
unfolding check_record check_scope
check_record_iff e r = (forward, backward)
  where
    steps : (check_record e r ≡ ok tt) ↔ (
        (r.public_key ≡ e.signer_public_key)
        × ((r.signer_role ≡ e.signer_role)
            × (Permits r.allowed_artifacts e.artifact_kind
                × ((r.revoked ≡ false)
                    × (((r.activated_at ≤ e.observed_at) × (e.observed_at ≤ r.cutoff_at))
                        × ((e.home_device_id ≡ r.home_device_id)
                            × ((e.store_id ≡ r.store_id) × (e.namespace ≡ r.namespace))))))))
    steps = then_iff _ _ (reject_ne_iff r.public_key e.signer_public_key _) (
        then_iff _ _ (reject_ne_iff r.signer_role e.signer_role _) (
          then_iff _ _ (permission_iff r.allowed_artifacts e.artifact_kind _) (
            then_iff _ _ (reject_if_iff r.revoked _) (
              then_iff _ _ (window_iff e.observed_at r.activated_at r.cutoff_at _) (
                then_iff _ _ (reject_ne_iff e.home_device_id r.home_device_id _) (
                  then_iff _ _ (reject_ne_iff e.store_id r.store_id _)
                    (reject_ne_iff e.namespace r.namespace _)))))))

    forward : check_record e r ≡ ok tt → Binds r e
    forward h =
        let (key, (role, (permission, (live, (window, (device, (store, namespace))))))) =
          steps.0 h in
        record {
          key = key;
          role = role;
          permission = permission;
          live = live;
          window = window;
          scope = (device, store, namespace);
        }

    backward : Binds r e → check_record e r ≡ ok tt
    backward b =
        steps.1 (
          b.key,
          (b.role, (b.permission, (b.live, (b.window, (b.scope.0, (b.scope.1, b.scope.2)))))),
        )

-- A key that the registry holds for the envelope's principal and version, and that binds it.
pub record HasTrustedKey (g : TrustedKeyRegistry) (e : MemoryMutationEnvelopeV1) : Type 0 where
  pub entry : TrustedKeyRecord
  pub found : lookup g e.signer_principal_id e.signer_key_version ≡ some entry
  pub binds : Binds entry e

pub validate_trusted_key_iff :
    (e : MemoryMutationEnvelopeV1) (g : TrustedKeyRegistry)
    → (validate_trusted_key e g ≡ ok tt) ↔ HasTrustedKey g e
unfolding validate_trusted_key
validate_trusted_key_iff e g = (forward, λ t. rw t.found ((check_record_iff e t.entry).1 t.binds))
  where
    forward : validate_trusted_key e g ≡ ok tt → HasTrustedKey g e
    forward h =
        let (r, found, checked) =
          >>=-eq-ok (ok_or (lookup g e.signer_principal_id e.signer_key_version) _) _ h in
        record { entry = r; found = ok_or-ok _ _ found; binds = (check_record_iff e r).0 checked }

-- An envelope is admitted exactly when it is valid and the registry holds a live key for its
-- principal and version that carries the envelope's public key, role, kind, time and scope.
pub validate_admitted_envelope_iff :
    (c : Crypto) (e : MemoryMutationEnvelopeV1) (g : TrustedKeyRegistry)
    → (validate_admitted_envelope c e g ≡ ok tt) ↔ (IsValid c e × HasTrustedKey g e)
unfolding validate_admitted_envelope
validate_admitted_envelope_iff c e g =
    then_iff (validate_envelope c e) (validate_trusted_key e g) (validate_envelope_iff c e)
      (validate_trusted_key_iff e g)

-- The signature verifies, on the envelope's own preimage, under the public key of a live entry of
-- the registry.
pub record SignedByRegistry (c : Crypto) (e : MemoryMutationEnvelopeV1) (g : TrustedKeyRegistry)
    : Type 0 where
  pub entry : TrustedKeyRecord
  pub found : lookup g e.signer_principal_id e.signer_key_version ≡ some entry
  pub live : entry.revoked ≡ false
  pub key : c.VerifyingKey
  pub decodes : c.from_bytes entry.public_key ≡ ok key
  pub preimage : Bytes
  pub encodes : signing_preimage e ≡ ok preimage
  pub verifies : c.verify key preimage e.signature ≡ ok tt

-- The signature of an admitted envelope verifies, on the envelope's preimage, under a live key of
-- the registry: a key that only the envelope carries does not suffice.
pub admitted_signature :
    (c : Crypto) (e : MemoryMutationEnvelopeV1) (g : TrustedKeyRegistry)
    → validate_admitted_envelope c e g ≡ ok tt
    → SignedByRegistry c e g
admitted_signature c e g h =
    let (v, t) = (validate_admitted_envelope_iff c e g).0 h in
    record {
      entry = t.entry;
      found = t.found;
      live = t.binds.live;
      key = v.signed.key;
      decodes = rw t.binds.key v.signed.decodes;
      preimage = v.signed.preimage;
      encodes = v.signed.encodes;
      verifies = v.signed.verifies;
    }

scope_error :
    (e : MemoryMutationEnvelopeV1) (r : TrustedKeyRecord) {x y : ArtifactKind}
    → check_scope e r ≡ err (artifact_permission_mismatch x y)
    → ⊥
unfolding check_scope
scope_error e r h = ground arith

permission_error :
    (e : MemoryMutationEnvelopeV1) (r : TrustedKeyRecord) {x y : ArtifactKind}
    → check_record e r ≡ err (artifact_permission_mismatch x y)
    → (x ≡ e.artifact_kind)
      × (y ≡ e.artifact_kind)
      × (allows r.allowed_artifacts e.artifact_kind ≡ false)
unfolding check_record
permission_error e r {x} {y} h =
    elim (reject_error (r.public_key != e.signer_public_key)
      (key_mismatch e.signer_principal_id e.signer_key_version) _ h) [
        | inl (_, bad) ↦ cc
        | inr (_, h1) ↦
            elim (reject_error (r.signer_role != e.signer_role)
              (role_mismatch r.signer_role e.signer_role) _ h1) [
                | inl (_, bad) ↦ cc
                | inr (_, h2) ↦
                    elim (reject_error (not (allows r.allowed_artifacts e.artifact_kind))
                      (artifact_permission_mismatch e.artifact_kind e.artifact_kind) _ h2) [
                        | inl (denied, same) ↦ ground arith
                        | inr (_, h3) ↦ absurd (late h3)
                      ]
              ]
      ]
  where
    late :
        (do
          reject_if r.revoked (key_revoked e.signer_principal_id e.signer_key_version)
          reject_if (ltb e.observed_at r.activated_at || ltb r.cutoff_at e.observed_at) (
              key_lifecycle_outside_window e.signer_principal_id e.signer_key_version e.observed_at
                r.activated_at r.cutoff_at)
          check_scope e r)
          ≡ err (artifact_permission_mismatch x y)
        → ⊥
    late h = ground (arith, scope_error e r {x = x} {y = y})

-- A refused permission is reported with the envelope's own kind in the place of the admitted one:
-- the error names one kind twice, although the key does not permit it.
pub permission_error_names_envelope :
    (e : MemoryMutationEnvelopeV1) (g : TrustedKeyRegistry) {x y : ArtifactKind}
    → validate_trusted_key e g ≡ err (artifact_permission_mismatch x y)
    → (x ≡ e.artifact_kind)
      × (y ≡ e.artifact_kind)
      × (r : TrustedKeyRecord) × (lookup g e.signer_principal_id e.signer_key_version ≡ some r)
      × (Permits r.allowed_artifacts e.artifact_kind → ⊥)
unfolding validate_trusted_key
permission_error_names_envelope e g h = go (lookup g e.signer_principal_id e.signer_key_version) h
  where
    go :
        (o : Option TrustedKeyRecord) {x y : ArtifactKind}
        → (ok_or o (signer_not_admitted e.signer_principal_id e.signer_key_version) >>= λ r.
            check_record e r)
          ≡ err (artifact_permission_mismatch x y)
        → (x ≡ e.artifact_kind)
          × (y ≡ e.artifact_kind)
          × (r : TrustedKeyRecord) × (o ≡ some r)
          × (Permits r.allowed_artifacts e.artifact_kind → ⊥)
    go none p = cc
    go (some r) p =
        let (ex, ey, no_permit) = permission_error e r p in
        (ex, ey, r, refl, λ m. cc (allows_complete m, no_permit))
