-- ===== src/Replication/Envelope.antt =====
-- src/replication/types.rs: the mutation envelope, its signing preimage, and the identities that
-- two envelopes may share. Integers are natural numbers and arrays are byte lists; `IsTyped` says
-- what Rust's types say of them.
pub mod Laws
pub mod Identity
use Prim.Native.Nat.{◌^◌}
use mnemes.Prelude.{
  ℕ, ◌<◌, ◌≡◌, Bool, ◌&&◌, ◌||◌, List, [], ◌∷◌, length, All, ◌==◌, nat_eq, list_eq, Result,
}
use mnemes.Prelude.Bytes.{Bytes, to_be_bytes}
use mnemes.Prelude.Text.{Text, text, as_bytes, IsText}
use mnemes.Replication.Roles.{SignerRole, ArtifactKind, role_u8, artifact_to_u8}
use mnemes.Replication.Error.{ReplicationError}
use mnemes.Replication.Parts.{Part, raw, sized, encode_parts}

abbrev pub signature_domain_tag : Bytes
signature_domain_tag = text "mnemes/mutation-envelope/signature/v1\0"

abbrev pub digest_domain_tag : Bytes
digest_domain_tag = text "mnemes/mutation-envelope/v1\0"

pub record MemoryMutationEnvelopeV1 : Type 0 where
  pub protocol_version : ℕ  -- u16
  pub artifact_kind : ArtifactKind
  pub operation_schema_version : ℕ  -- u16
  pub semantic_schema_generation : ℕ  -- u16
  pub operation_id : Text
  pub idempotency_key : Text
  pub home_device_id : Text
  pub store_id : Text
  pub actor_id : Text
  pub store_epoch : ℕ  -- u64
  pub writer_epoch : ℕ  -- u64
  pub sequence : ℕ  -- u64
  pub previous_envelope_digest : Bytes  -- [u8; 32]
  pub fencing_token : Text
  pub namespace : Text
  pub operation_kind : Text
  pub canonical_payload : Bytes
  pub payload_digest : Bytes  -- [u8; 32]
  pub payload_length : ℕ  -- u64
  pub requested_effect_digest : Bytes  -- [u8; 32]
  pub policy_version : ℕ  -- u64
  pub authorization_snapshot_id : Bytes
  pub authorization_snapshot_digest : Bytes  -- [u8; 32]
  pub authority_receipt_digest : Bytes  -- [u8; 32]
  pub signer_principal_id : Text
  pub signer_role : SignerRole
  pub signer_key_version : ℕ  -- u64
  pub observed_at : ℕ  -- u64
  pub valid_from : ℕ  -- u64
  pub valid_to : ℕ  -- u64
  pub signer_public_key : Bytes  -- [u8; 32]
  pub signature : Bytes  -- [u8; 64]

-- The ranges and lengths that the types of the fields give.
pub record IsTyped (e : MemoryMutationEnvelopeV1) : Type 0 where
  pub versions :
      (e.protocol_version < 2 ^ 16)
      × (e.operation_schema_version < 2 ^ 16)
      × (e.semantic_schema_generation < 2 ^ 16)
  pub texts :
      IsText e.operation_id
      × IsText e.idempotency_key
      × IsText e.home_device_id
      × IsText e.store_id
      × IsText e.actor_id
      × IsText e.fencing_token
      × IsText e.namespace
      × IsText e.operation_kind
      × IsText e.signer_principal_id
  pub numbers :
      (e.store_epoch < 2 ^ 64)
      × (e.writer_epoch < 2 ^ 64)
      × (e.sequence < 2 ^ 64)
      × (e.payload_length < 2 ^ 64)
      × (e.policy_version < 2 ^ 64)
      × (e.signer_key_version < 2 ^ 64)
      × (e.observed_at < 2 ^ 64)
      × (e.valid_from < 2 ^ 64)
      × (e.valid_to < 2 ^ 64)
  pub digests :
      (length e.previous_envelope_digest ≡ 32)
      × (length e.payload_digest ≡ 32)
      × (length e.requested_effect_digest ≡ 32)
      × (length e.authorization_snapshot_digest ≡ 32)
      × (length e.authority_receipt_digest ≡ 32)

-- The 29 appends after the domain tag, in their order.
abbrev pub envelope_parts : MemoryMutationEnvelopeV1 → List Part
envelope_parts e =
    raw (to_be_bytes 2 e.protocol_version)
    ∷ raw (artifact_to_u8 e.artifact_kind ∷ [])
    ∷ raw (to_be_bytes 2 e.operation_schema_version)
    ∷ raw (to_be_bytes 2 e.semantic_schema_generation)
    ∷ sized (as_bytes e.operation_id) "operation_id"
    ∷ sized (as_bytes e.idempotency_key) "idempotency_key"
    ∷ sized (as_bytes e.home_device_id) "home_device_id"
    ∷ sized (as_bytes e.store_id) "store_id"
    ∷ sized (as_bytes e.actor_id) "actor_id"
    ∷ raw (to_be_bytes 8 e.store_epoch)
    ∷ raw (to_be_bytes 8 e.writer_epoch)
    ∷ raw (to_be_bytes 8 e.sequence)
    ∷ raw e.previous_envelope_digest
    ∷ sized (as_bytes e.fencing_token) "fencing_token"
    ∷ sized (as_bytes e.namespace) "namespace"
    ∷ sized (as_bytes e.operation_kind) "operation_kind"
    ∷ raw e.payload_digest
    ∷ raw (to_be_bytes 8 e.payload_length)
    ∷ raw e.requested_effect_digest
    ∷ raw (to_be_bytes 8 e.policy_version)
    ∷ sized e.authorization_snapshot_id "authorization_snapshot_id"
    ∷ raw e.authorization_snapshot_digest
    ∷ raw e.authority_receipt_digest
    ∷ sized (as_bytes e.signer_principal_id) "signer_principal_id"
    ∷ raw (role_u8 e.signer_role ∷ [])
    ∷ raw (to_be_bytes 8 e.signer_key_version)
    ∷ raw (to_be_bytes 8 e.observed_at)
    ∷ raw (to_be_bytes 8 e.valid_from)
    ∷ raw (to_be_bytes 8 e.valid_to)
    ∷ []

unfoldable pub signing_preimage : MemoryMutationEnvelopeV1 → Result ReplicationError Bytes
signing_preimage e = encode_parts signature_domain_tag (envelope_parts e)

unfoldable pub same_identity : MemoryMutationEnvelopeV1 → MemoryMutationEnvelopeV1 → Bool
same_identity a b =
    (a.operation_id == b.operation_id
      && a.home_device_id == b.home_device_id
      && a.store_id == b.store_id)
    || (a.home_device_id == b.home_device_id && a.idempotency_key == b.idempotency_key)
    || (a.home_device_id == b.home_device_id
        && a.store_id == b.store_id
        && a.store_epoch == b.store_epoch
        && a.writer_epoch == b.writer_epoch
        && a.sequence == b.sequence)
