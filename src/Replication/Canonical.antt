-- ===== src/Replication/Canonical.antt =====
-- src/replication/canonical.rs: the digest of an envelope, and its structural and cryptographic
-- validation, one function for each numbered step of the source.
pub mod Checks
pub mod Laws
pub mod Digest
use mnemes.Prelude.{
  ℕ, suc, String, Bool, ◌||◌, Option, none, some, List, [], ◌∷◌, ◌++◌, length, drop, is_empty, ltb,
  nat_beq, not, ◌!=◌, nat_eq, list_eq, if◌then◌else◌, Result, ok, err, ◌>>=◌, ◌>>◌, reject_if,
  map_err,
}
use mnemes.Prelude.Bytes.{Bytes}
use mnemes.Prelude.Text.{Text, as_bytes, trim}
use mnemes.Replication.Roles.{role_u8, role_from_u8, artifact_to_u8, artifact_from_u8, may_sign}
use mnemes.Replication.Error.{
  ReplicationError, unsupported_protocol_version, unknown_artifact_kind, unknown_signer_role,
  empty_field, empty_payload, control_character_in_field, field_exceeds_max_length,
  invalid_temporal_interval, payload_length_mismatch, payload_digest_mismatch,
  wrong_snapshot_id_length, wrong_public_key_length, wrong_signature_length, role_artifact_mismatch,
  invalid_public_key, signature_verification, digest_computation,
}
use mnemes.Replication.Envelope.{
  MemoryMutationEnvelopeV1, signature_domain_tag, digest_domain_tag, signing_preimage,
}
use mnemes.Replication.Crypto.{Crypto}

-- The outcome of a check.
abbrev pub Check : Type 0
Check = Result ReplicationError (Unit {0})

unfoldable pub check_version : MemoryMutationEnvelopeV1 → Check
check_version e =
    reject_if (e.protocol_version != 1) (unsupported_protocol_version e.protocol_version)

recognised {ℓ} : {A : Type ℓ} → Option A → ReplicationError → Check
recognised (some _) e = ok tt
recognised none e = err e

unfoldable pub check_codes : MemoryMutationEnvelopeV1 → Check
unfolding recognised
check_codes e = do
  recognised (artifact_from_u8 (artifact_to_u8 e.artifact_kind))
      (unknown_artifact_kind (artifact_to_u8 e.artifact_kind))
  recognised (role_from_u8 (role_u8 e.signer_role)) (unknown_signer_role (role_u8 e.signer_role))

-- The fields that must be non-empty and free of control characters.
abbrev pub required_fields : MemoryMutationEnvelopeV1 → List (String × Text)
required_fields e =
    ("operation_id", e.operation_id)
    ∷ ("idempotency_key", e.idempotency_key)
    ∷ ("home_device_id", e.home_device_id)
    ∷ ("store_id", e.store_id)
    ∷ ("actor_id", e.actor_id)
    ∷ ("namespace", e.namespace)
    ∷ ("fencing_token", e.fencing_token)
    ∷ ("operation_kind", e.operation_kind)
    ∷ ("signer_principal_id", e.signer_principal_id)
    ∷ []

unfoldable pub check_required : List (String × Text) → Check
check_required [] = ok tt
check_required ((name, field) ∷ rest) = do
  reject_if (is_empty (trim field)) (empty_field name)
  check_required rest

unfoldable pub check_payload_present : MemoryMutationEnvelopeV1 → Check
check_payload_present e = reject_if (is_empty e.canonical_payload) empty_payload

-- `bytes().enumerate().find(..)`: the first control byte with its position.
unfoldable pub find_control : ℕ → Bytes → Option (ℕ × ℕ)
find_control pos [] = none
find_control pos (b ∷ bytes) =
    if ltb b 0x20 || nat_beq b 0x7f then some (pos, b) else find_control (suc pos) bytes

control_error : String → Option (ℕ × ℕ) → Check
control_error name none = ok tt
control_error name (some (pos, byte)) = err (control_character_in_field name byte pos)

unfoldable pub check_controls : List (String × Text) → Check
unfolding control_error
check_controls [] = ok tt
check_controls ((name, field) ∷ rest) = do
  control_error name (find_control 0 (as_bytes field))
  check_controls rest

abbrev pub max_payload_len : ℕ
max_payload_len = 1_048_576

abbrev pub byte_checks : MemoryMutationEnvelopeV1 → List (String × Text × ℕ)
byte_checks e =
    ("operation_id", e.operation_id, 128)
    ∷ ("idempotency_key", e.idempotency_key, 128)
    ∷ ("home_device_id", e.home_device_id, 64)
    ∷ ("store_id", e.store_id, 64)
    ∷ ("actor_id", e.actor_id, 64)
    ∷ ("namespace", e.namespace, 256)
    ∷ ("fencing_token", e.fencing_token, 128)
    ∷ ("operation_kind", e.operation_kind, 64)
    ∷ ("signer_principal_id", e.signer_principal_id, 128)
    ∷ []

unfoldable pub check_lengths : List (String × Text × ℕ) → Check
check_lengths [] = ok tt
check_lengths ((name, field, max) ∷ rest) = do
  reject_if (ltb max (length (as_bytes field)))
      (field_exceeds_max_length name (length (as_bytes field)) max)
  check_lengths rest

unfoldable pub check_payload_limit : MemoryMutationEnvelopeV1 → Check
check_payload_limit e =
    reject_if (ltb max_payload_len (length e.canonical_payload))
      (field_exceeds_max_length "canonical_payload" (length e.canonical_payload) max_payload_len)

unfoldable pub check_interval : MemoryMutationEnvelopeV1 → Check
check_interval e =
    reject_if (ltb e.valid_to e.valid_from) (invalid_temporal_interval e.valid_from e.valid_to)

unfoldable pub check_sizes : MemoryMutationEnvelopeV1 → Check
check_sizes e = do
  reject_if (length e.authorization_snapshot_id != 16)
      (wrong_snapshot_id_length (length e.authorization_snapshot_id))
  reject_if (length e.signer_public_key != 32)
      (wrong_public_key_length (length e.signer_public_key))
  reject_if (length e.signature != 64) (wrong_signature_length (length e.signature))

unfoldable pub check_matrix : MemoryMutationEnvelopeV1 → Check
check_matrix e =
    reject_if (not (may_sign e.signer_role e.artifact_kind))
      (role_artifact_mismatch e.signer_role e.artifact_kind)

module _ (c : Crypto) where
  open c use {sha256, from_bytes, verify}

  -- `SHA256(DIGEST_DOMAIN_TAG || field_bytes)`
  unfoldable pub canonical_digest : MemoryMutationEnvelopeV1 → Result ReplicationError Bytes
  canonical_digest e = do
    preimage ← signing_preimage e
    reject_if (ltb (length preimage) (length signature_domain_tag))
        (digest_computation "preimage shorter than signature domain tag")
    ok (sha256 (digest_domain_tag ++ drop (length signature_domain_tag) preimage))

  unfoldable pub check_payload : MemoryMutationEnvelopeV1 → Check
  check_payload e = do
    reject_if (e.payload_length != length e.canonical_payload)
        (payload_length_mismatch e.payload_length (length e.canonical_payload))
    reject_if (sha256 e.canonical_payload != e.payload_digest) payload_digest_mismatch

  unfoldable pub check_signature : MemoryMutationEnvelopeV1 → Check
  check_signature e = do
    key ← map_err invalid_public_key (from_bytes e.signer_public_key)
    preimage ← signing_preimage e
    map_err signature_verification (verify key preimage e.signature)

  unfoldable pub validate_envelope : MemoryMutationEnvelopeV1 → Check
  validate_envelope e = do
    check_version e
    check_codes e
    check_required (required_fields e)
    check_payload_present e
    check_controls (required_fields e)
    check_lengths (byte_checks e)
    check_payload_limit e
    check_interval e
    check_payload e
    check_sizes e
    check_matrix e
    check_signature e
