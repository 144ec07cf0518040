-- ===== src/Replication/Error.antt =====
-- src/replication/error.rs: the typed errors of the protocol. A formatted message is kept as the
-- data that it is formatted from.
use mnemes.Prelude.{ℕ, String}
use mnemes.Prelude.Text.{Text}
use mnemes.Prelude.Int.{ℤ}
use mnemes.Replication.Roles.{SignerRole, ArtifactKind}

mutual
  pub data ReplicationError : Type 0 where
    unsupported_protocol_version : ℕ → ReplicationError
    unknown_artifact_kind : ℕ → ReplicationError
    unknown_signer_role : ℕ → ReplicationError
    empty_field : String → ReplicationError
    wrong_public_key_length : ℕ → ReplicationError
    wrong_signature_length : ℕ → ReplicationError
    role_artifact_mismatch : (role : SignerRole) (artifact : ArtifactKind) → ReplicationError
    invalid_public_key : Text → ReplicationError
    signature_verification : Text → ReplicationError
    field_too_long : (field : String) (len : ℕ) → ReplicationError
    wrong_snapshot_id_length : ℕ → ReplicationError
    empty_payload : ReplicationError
    digest_computation : String → ReplicationError
    pre_collision_validation : Message → ReplicationError
    identity_collision : ReplicationError
    payload_length_mismatch : (declared actual : ℕ) → ReplicationError
    payload_digest_mismatch : ReplicationError
    signer_not_admitted : (principal_id : Text) (key_version : ℕ) → ReplicationError
    key_mismatch : (principal_id : Text) (key_version : ℕ) → ReplicationError
    role_mismatch : (admitted_role envelope_role : SignerRole) → ReplicationError
    artifact_permission_mismatch :
        (admitted_artifact envelope_artifact : ArtifactKind) → ReplicationError
    duplicate_trusted_key : (principal_id : Text) (key_version : ℕ) → ReplicationError
    key_revoked : (principal_id : Text) (key_version : ℕ) → ReplicationError
    key_lifecycle_outside_window :
        (principal_id : Text) (key_version observed_at activated_at cutoff_at : ℕ)
        → ReplicationError
    key_scope_mismatch :
        (principal_id : Text) (key_version : ℕ) (field : String) (envelope_value key_scope : Text)
        → ReplicationError
    control_character_in_field : (field : String) (byte pos : ℕ) → ReplicationError
    invalid_temporal_interval : (valid_from valid_to : ℕ) → ReplicationError
    field_exceeds_max_length : (field : String) (len max : ℕ) → ReplicationError
    invalid_idempotency_key : Text → ReplicationError

  -- What `format!` is given: fixed words, a field, an inner error, or the words of a library.
  pub data Message : Type 0 where
    words : String → Message
    about : String → String → Message
    first_envelope second_envelope : ReplicationError → Message
    sequence_mismatch : (expected got : ℤ) → Message
    caused : String → Text → Message
    caused_at : String → ℤ → Text → Message
