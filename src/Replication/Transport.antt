-- ===== src/Replication/Transport.antt =====
-- src/replication/fact_create.rs and fact_supersede.rs: what the two transport profiles share, the
-- test of the text fields of a batch, and the crate semantic_memory, which is a parameter.
pub mod Laws
use mnemes.Prelude.{
  ℕ, zero, suc, String, Bool, ◌||◌, List, [], ◌∷◌, length, is_empty, any, ltb, ◌!=◌, list_eq, ok,
  ◌>>=◌, ◌>>◌, reject_if, Result,
}
use mnemes.Prelude.Bytes.{Bytes}
use mnemes.Prelude.Text.{Text, as_bytes, trim, is_control}
use mnemes.Prelude.Int.{ℤ}
use mnemes.Replication.Error.{
  empty_field, pre_collision_validation, about, field_exceeds_max_length,
}
use mnemes.Replication.Canonical.{Check}

abbrev pub max_id_bytes : ℕ
max_id_bytes = 128

abbrev pub max_fencing_token_bytes : ℕ
max_fencing_token_bytes = 256

abbrev pub max_wire_bytes : ℕ
max_wire_bytes = 4_194_304

abbrev pub max_entries : ℕ
max_entries = 1

-- `[0u8; n]`, the key and the signature of a batch that is not signed.
abbrev pub zeros : ℕ → Bytes
zeros zero = []
zeros (suc n) = 0 ∷ zeros n

unfoldable pub check_text : String → List (String × Text × ℕ) → Check
check_text profile [] = ok tt
check_text profile ((field, value, max) ∷ rest) = do
  reject_if (is_empty value) (empty_field field)
  reject_if (trim value != value || any is_control value)
      (pre_collision_validation (about profile field))
  reject_if (ltb max (length (as_bytes value)))
      (field_exceeds_max_length field (length (as_bytes value)) max)
  check_text profile rest

-- The journal of semantic_memory, as far as the fact-create profile uses it.
pub record FactCreateJournal : Type 1 where
  pub JournalEntry : Type 0
  pub operation_kind : JournalEntry → Text
  pub payload_schema : JournalEntry → Text
  pub record_state : JournalEntry → Text
  pub sequence : JournalEntry → ℤ
  pub payload : JournalEntry → Bytes
  pub payload_digest : JournalEntry → Bytes
  pub predecessor_digest : JournalEntry → Bytes
  pub envelope_digest : JournalEntry → Bytes
  -- FACT_CREATE_OPERATION, FACT_CREATE_PAYLOAD_SCHEMA and VERIFIED_RECORD_STATE
  pub fact_create_operation : Text
  pub fact_create_payload_schema : Text
  pub verified_record_state : Text
  -- The fields of `FactCreateReplicaEnvelopeV1`, in the order of the source.
  pub ReplicaEnvelope : Type 0
  pub replica_envelope :
      (home_device_id store_id : Text) (stream_epoch : ℕ) (sequence : ℤ)
      (operation_kind payload_schema : Text)
      (payload payload_digest predecessor_digest envelope_digest : Bytes)
      → ReplicaEnvelope
  -- `validate_fact_create_replica_envelope`, with the words of its error
  pub validate_replica_envelope : ReplicaEnvelope → Result Text (Unit {0})

-- The fact-supersede envelopes of semantic_memory, and `serde_json` at the payload that a supersession
-- replaces by.
pub record FactSupersedeOwner : Type 1 where
  pub ReplicaEnvelope : Type 0
  pub home_device_id : ReplicaEnvelope → Text
  pub store_id : ReplicaEnvelope → Text
  pub stream_epoch : ReplicaEnvelope → ℕ
  pub sequence : ReplicaEnvelope → ℤ
  pub operation_kind : ReplicaEnvelope → Text
  pub payload_schema : ReplicaEnvelope → Text
  pub payload : ReplicaEnvelope → Bytes
  pub payload_digest : ReplicaEnvelope → Bytes
  pub predecessor_digest : ReplicaEnvelope → Bytes
  pub envelope_digest : ReplicaEnvelope → Bytes
  -- `validate_fact_supersede_replica_envelope`: the replacement payload, or the words of its error
  pub validate_replica_envelope : ReplicaEnvelope → Result Text Bytes
  -- the namespace of the `FactCreatePayloadV1` that the bytes decode to
  pub payload_namespace : Bytes → Result Text Text
