-- ===== src/Replication/TrustedKey.antt =====
-- src/replication/trusted_key.rs: the registry of admitted keys, and the admission of an envelope
-- against it. `&mut self` is state passing: an operation returns its result and the registry.
pub mod Registry
pub mod Admission
use mnemes.Prelude.{
  ℕ, Bool, true, false, ◌&&◌, ◌||◌, not, Option, none, some, List, [], ◌∷◌, ◌++◌, ltb, nat_beq,
  ◌==◌, ◌!=◌, nat_eq, list_eq, if◌then◌else◌, ok, err, ◌>>=◌, ◌>>◌, reject_if, ok_or,
}
use mnemes.Prelude.Bytes.{Bytes}
use mnemes.Prelude.Text.{Text}
use mnemes.Replication.Roles.{
  SignerRole, role_eq, ArtifactKind, mutation, promotion, bootstrap, ack, grant, proposal,
  routing_receipt,
}
use mnemes.Replication.Error.{
  ReplicationError, duplicate_trusted_key, signer_not_admitted, key_mismatch, role_mismatch,
  artifact_permission_mismatch, key_revoked, key_lifecycle_outside_window, key_scope_mismatch,
}
use mnemes.Replication.Envelope.{MemoryMutationEnvelopeV1}
use mnemes.Replication.Crypto.{Crypto}
use mnemes.Replication.Canonical.{Check, validate_envelope}

-- `artifact as u8`: the discriminant of the enum, which has no explicit ones.
abbrev pub artifact_as_u8 : ArtifactKind → ℕ
artifact_as_u8 mutation = 0
artifact_as_u8 promotion = 1
artifact_as_u8 bootstrap = 2
artifact_as_u8 ack = 3
artifact_as_u8 grant = 4
artifact_as_u8 proposal = 5
artifact_as_u8 routing_receipt = 6

pub data AllowedArtifacts : Type 0 where
  single : ArtifactKind → AllowedArtifacts
  recovery_bootstrap_and_promotion : AllowedArtifacts

unfoldable pub allows : AllowedArtifacts → ArtifactKind → Bool
allows (single allowed) artifact = nat_beq (artifact_as_u8 allowed) (artifact_as_u8 artifact)
allows recovery_bootstrap_and_promotion bootstrap = true
allows recovery_bootstrap_and_promotion promotion = true
allows recovery_bootstrap_and_promotion _ = false

pub record TrustedKeyRecord : Type 0 where
  pub signer_principal_id : Text
  pub signer_key_version : ℕ  -- u64
  pub public_key : Bytes  -- [u8; 32]
  pub signer_role : SignerRole
  pub allowed_artifacts : AllowedArtifacts
  pub activated_at : ℕ  -- u64
  pub cutoff_at : ℕ  -- u64
  pub revoked : Bool
  pub home_device_id : Text
  pub store_id : Text
  pub namespace : Text

pub record TrustedKeyRegistry : Type 0 where
  pub keys : List TrustedKeyRecord

abbrev pub registry_new : TrustedKeyRegistry
registry_new = record { keys = [] }

unfoldable pub find_key : Text → ℕ → List TrustedKeyRecord → Option TrustedKeyRecord
find_key principal_id key_version [] = none
find_key principal_id key_version (k ∷ keys) =
    if k.signer_principal_id == principal_id && k.signer_key_version == key_version
    then some k
    else find_key principal_id key_version keys

unfoldable pub lookup : TrustedKeyRegistry → Text → ℕ → Option TrustedKeyRecord
lookup registry principal_id key_version = find_key principal_id key_version registry.keys

admit_unless :
    Option TrustedKeyRecord → TrustedKeyRegistry → TrustedKeyRecord → Check × TrustedKeyRegistry
admit_unless (some _) registry r =
    (err (duplicate_trusted_key r.signer_principal_id r.signer_key_version), registry)
admit_unless none registry r = (ok tt, record registry { keys = registry.keys ++ r ∷ [] })

unfoldable pub try_admit : TrustedKeyRegistry → TrustedKeyRecord → Check × TrustedKeyRegistry
unfolding admit_unless
try_admit registry r =
    admit_unless (lookup registry r.signer_principal_id r.signer_key_version) registry r

unfoldable pub admit : TrustedKeyRegistry → TrustedKeyRecord → Check × TrustedKeyRegistry
unfolding try_admit
admit registry r = try_admit registry r

unfoldable pub check_scope : MemoryMutationEnvelopeV1 → TrustedKeyRecord → Check
check_scope e r = do
  reject_if (e.home_device_id != r.home_device_id) (
      key_scope_mismatch e.signer_principal_id e.signer_key_version "home_device_id"
        e.home_device_id r.home_device_id)
  reject_if (e.store_id != r.store_id) (
      key_scope_mismatch e.signer_principal_id e.signer_key_version "store_id" e.store_id
        r.store_id)
  reject_if (e.namespace != r.namespace) (
      key_scope_mismatch e.signer_principal_id e.signer_key_version "namespace" e.namespace
        r.namespace)

unfoldable pub check_record : MemoryMutationEnvelopeV1 → TrustedKeyRecord → Check
check_record e r = do
  reject_if (r.public_key != e.signer_public_key)
      (key_mismatch e.signer_principal_id e.signer_key_version)
  reject_if (r.signer_role != e.signer_role) (role_mismatch r.signer_role e.signer_role)
  reject_if (not (allows r.allowed_artifacts e.artifact_kind))
      (artifact_permission_mismatch e.artifact_kind e.artifact_kind)
  reject_if r.revoked (key_revoked e.signer_principal_id e.signer_key_version)
  reject_if (ltb e.observed_at r.activated_at || ltb r.cutoff_at e.observed_at) (
      key_lifecycle_outside_window e.signer_principal_id e.signer_key_version e.observed_at
        r.activated_at r.cutoff_at)
  check_scope e r

unfoldable pub validate_trusted_key : MemoryMutationEnvelopeV1 → TrustedKeyRegistry → Check
validate_trusted_key e registry = do
  r ←
      ok_or (lookup registry e.signer_principal_id e.signer_key_version)
        (signer_not_admitted e.signer_principal_id e.signer_key_version)
  check_record e r

unfoldable pub validate_admitted_envelope :
    Crypto → MemoryMutationEnvelopeV1 → TrustedKeyRegistry → Check
validate_admitted_envelope c e registry = do validate_envelope c e; validate_trusted_key e registry
