-- ===== src/Replication/FactCreate.antt =====
-- src/replication/fact_create.rs: the signed transport batch of fact-create journal records.
-- `&mut self` is state passing: `sign` returns the new batch, and an error leaves the old one.
pub mod Laws
use mnemes.Prelude.{
  ℕ, zero, suc, String, Bool, ◌&&◌, ◌||◌, not, List, [], ◌∷◌, ◌++◌, map, length, is_empty, ltb, ◌%◌,
  ◌^◌, ◌==◌, ◌!=◌, nat_eq, list_eq, if◌then◌else◌, Result, ok, err, ◌>>=◌, ◌>>◌, reject_if, map_err,
}
use mnemes.Prelude.Bytes.{Bytes, to_be_bytes}
use mnemes.Prelude.Text.{Text, text, as_bytes}
use mnemes.Prelude.Int.{ℤ, pos, int_eq, ltb_ℤ, add_count, i64_bits}
use mnemes.Replication.Roles.{SignerRole, device_writer, mutation, role_u8, role_eq}
use mnemes.Replication.Error.{
  ReplicationError, unsupported_protocol_version, role_artifact_mismatch, empty_field,
  field_exceeds_max_length, pre_collision_validation, words, sequence_mismatch, caused, caused_at,
  invalid_public_key, signature_verification,
}
use mnemes.Replication.Parts.{Part, raw, sized, encode_parts}
use mnemes.Replication.Crypto.{Crypto}
use mnemes.Replication.Canonical.{Check}
use mnemes.Replication.Transport.{
  FactCreateJournal, max_id_bytes, max_fencing_token_bytes, max_wire_bytes, max_entries, check_text,
  zeros,
}

abbrev pub protocol_version : ℕ
protocol_version = 1

abbrev pub signature_domain : Bytes
signature_domain = text "mnemes/fact-create-batch/signature/v1\0"

pub record FactCreateTransportEntryV1 : Type 0 where
  pub sequence : ℤ  -- i64
  pub payload : Bytes
  pub payload_digest : Bytes  -- [u8; 32]
  pub predecessor_digest : Bytes  -- [u8; 32]
  pub journal_envelope_digest : Bytes  -- [u8; 32]

pub record SignedFactCreateBatchV1 : Type 0 where
  pub protocol_version : ℕ  -- u16
  pub batch_id : Text
  pub home_device_id : Text
  pub store_id : Text
  pub stream_epoch : ℕ  -- u64
  pub start_sequence : ℤ  -- i64
  pub entries : List FactCreateTransportEntryV1
  pub signer_principal_id : Text
  pub signer_role : SignerRole
  pub signer_key_version : ℕ  -- u64
  pub observed_at : ℕ  -- u64
  pub fencing_token : Text
  pub signer_public_key : Bytes  -- [u8; 32]
  pub signature : Bytes  -- [u8; 64]

abbrev pub text_fields : SignedFactCreateBatchV1 → List (String × Text × ℕ)
text_fields b =
    ("batch_id", b.batch_id, max_id_bytes)
    ∷ ("home_device_id", b.home_device_id, max_id_bytes)
    ∷ ("store_id", b.store_id, max_id_bytes)
    ∷ ("signer_principal_id", b.signer_principal_id, max_id_bytes)
    ∷ ("fencing_token", b.fencing_token, max_fencing_token_bytes)
    ∷ []

-- The loop over the entries with their offsets. A batch that passed the tests before has one entry,
-- so `start_sequence + offset` cannot overflow.
unfoldable pub check_sequences : ℤ → ℕ → List FactCreateTransportEntryV1 → Check
check_sequences start offset [] = ok tt
check_sequences start offset (entry ∷ entries) = do
  reject_if (entry.sequence != add_count start offset)
      (pre_collision_validation (sequence_mismatch (add_count start offset) entry.sequence))
  check_sequences start (suc offset) entries

unfoldable pub validate_structure : SignedFactCreateBatchV1 → Check
validate_structure b = do
  reject_if (b.protocol_version != protocol_version)
      (unsupported_protocol_version b.protocol_version)
  reject_if (b.signer_role != device_writer) (role_artifact_mismatch b.signer_role mutation)
  check_text "fact-create" (text_fields b)
  reject_if (b.stream_epoch == 0)
      (pre_collision_validation (words "fact-create stream_epoch must be positive"))
  reject_if (ltb_ℤ b.start_sequence (pos 1))
      (pre_collision_validation (words "fact-create start_sequence must be positive"))
  reject_if (is_empty b.entries) (empty_field "entries")
  reject_if (ltb max_entries (length b.entries))
      (field_exceeds_max_length "entries" (length b.entries) max_entries)
  check_sequences b.start_sequence 0 b.entries

-- The appends that one round of the loop over the entries makes.
abbrev pub entry_parts : List FactCreateTransportEntryV1 → List Part
entry_parts [] = []
entry_parts (e ∷ es) =
    raw (to_be_bytes 8 (i64_bits e.sequence))
    ∷ sized e.payload "payload"
    ∷ raw e.payload_digest
    ∷ raw e.predecessor_digest
    ∷ raw e.journal_envelope_digest
    ∷ entry_parts es

abbrev pub batch_parts : SignedFactCreateBatchV1 → List Part
batch_parts b =
    raw (to_be_bytes 2 b.protocol_version)
    ∷ sized (as_bytes b.batch_id) "batch_id"
    ∷ sized (as_bytes b.home_device_id) "home_device_id"
    ∷ sized (as_bytes b.store_id) "store_id"
    ∷ raw (to_be_bytes 8 b.stream_epoch)
    ∷ raw (to_be_bytes 8 (i64_bits b.start_sequence))
    ∷ raw (to_be_bytes 4 (length b.entries % 2 ^ 32))
    ∷ (entry_parts b.entries
        ++ (sized (as_bytes b.signer_principal_id) "signer_principal_id"
            ∷ raw (role_u8 b.signer_role ∷ [])
            ∷ raw (to_be_bytes 8 b.signer_key_version)
            ∷ raw (to_be_bytes 8 b.observed_at)
            ∷ sized (as_bytes b.fencing_token) "fencing_token"
            ∷ []))

unfoldable pub signing_preimage : SignedFactCreateBatchV1 → Result ReplicationError Bytes
signing_preimage b = encode_parts signature_domain (batch_parts b)

unfoldable pub batch_new :
    (batch_id home_device_id store_id : Text) (stream_epoch : ℕ) (start_sequence : ℤ)
    (entries : List FactCreateTransportEntryV1) (signer_principal_id : Text)
    (signer_key_version observed_at : ℕ) (fencing_token : Text)
    → Result ReplicationError SignedFactCreateBatchV1
batch_new batch_id home_device_id store_id stream_epoch start_sequence entries signer_principal_id
      signer_key_version observed_at fencing_token =
    let batch : SignedFactCreateBatchV1 = record {
      protocol_version = protocol_version;
      batch_id = batch_id;
      home_device_id = home_device_id;
      store_id = store_id;
      stream_epoch = stream_epoch;
      start_sequence = start_sequence;
      entries = entries;
      signer_principal_id = signer_principal_id;
      signer_role = device_writer;
      signer_key_version = signer_key_version;
      observed_at = observed_at;
      fencing_token = fencing_token;
      signer_public_key = zeros 32;
      signature = zeros 64;
    } in
    validate_structure batch >> ok batch

module _ (j : FactCreateJournal) where
  open j use {
    JournalEntry, ReplicaEnvelope, replica_envelope, validate_replica_envelope,
    fact_create_operation, fact_create_payload_schema, verified_record_state,
  }

  unfoldable pub from_journal_entry :
      JournalEntry → Result ReplicationError FactCreateTransportEntryV1
  from_journal_entry entry = do
    reject_if
        (j.operation_kind entry != fact_create_operation
          || j.payload_schema entry != fact_create_payload_schema
          || j.record_state entry != verified_record_state)
        (pre_collision_validation
          (words "journal entry is not an admitted verified fact-create record"))
    ok (record {
      sequence = j.sequence entry;
      payload = j.payload entry;
      payload_digest = j.payload_digest entry;
      predecessor_digest = j.predecessor_digest entry;
      journal_envelope_digest = j.envelope_digest entry;
    })

  unfoldable pub to_semantic_envelope :
      FactCreateTransportEntryV1 → Text → Text → ℕ → ReplicaEnvelope
  to_semantic_envelope entry home_device_id store_id stream_epoch =
      replica_envelope home_device_id store_id stream_epoch entry.sequence fact_create_operation
        fact_create_payload_schema entry.payload entry.payload_digest entry.predecessor_digest
        entry.journal_envelope_digest

  abbrev pub semantic_envelope :
      SignedFactCreateBatchV1 → FactCreateTransportEntryV1 → ReplicaEnvelope
  semantic_envelope b entry = to_semantic_envelope entry b.home_device_id b.store_id b.stream_epoch

  unfoldable pub check_entries : SignedFactCreateBatchV1 → List FactCreateTransportEntryV1 → Check
  check_entries b [] = ok tt
  check_entries b (entry ∷ entries) = do
    map_err
        (λ e.
          pre_collision_validation (
            caused_at "semantic-memory fact-create validation failed at sequence" entry.sequence e))
        (validate_replica_envelope (semantic_envelope b entry))
    check_entries b entries

module _ (c : Crypto) where
  open c use {SigningKey, public_bytes, sign, from_bytes, verify}

  unfoldable pub sign_batch :
      SignedFactCreateBatchV1 → SigningKey → Result ReplicationError SignedFactCreateBatchV1
  sign_batch b signing_key = do
    validate_structure b
    let keyed = record b { signer_public_key = public_bytes signing_key }
    preimage ← signing_preimage keyed
    ok (record keyed { signature = sign signing_key preimage })

  unfoldable pub check_batch_signature : SignedFactCreateBatchV1 → Check
  check_batch_signature b = do
    key ← map_err invalid_public_key (from_bytes b.signer_public_key)
    preimage ← signing_preimage b
    map_err signature_verification (verify key preimage b.signature)

  module _ (j : FactCreateJournal) where
    open j use {ReplicaEnvelope}

    unfoldable pub validate : SignedFactCreateBatchV1 → Check
    validate b = do validate_structure b; check_entries j b b.entries; check_batch_signature b

    unfoldable pub semantic_envelopes :
        SignedFactCreateBatchV1 → Result ReplicationError (List ReplicaEnvelope)
    semantic_envelopes b = do validate b; ok (map (semantic_envelope j b) b.entries)

    -- `from_slice` is `serde_json::from_slice` at the batch, with the words of its error.
    unfoldable pub decode_json :
        (Bytes → Result Text SignedFactCreateBatchV1)
        → Bytes
        → Result ReplicationError SignedFactCreateBatchV1
    decode_json from_slice bytes = do
      reject_if (ltb max_wire_bytes (length bytes))
          (field_exceeds_max_length "wire_body" (length bytes) max_wire_bytes)
      batch ←
          map_err
            (λ e. pre_collision_validation (caused "fact-create transport JSON decode failed" e))
            (from_slice bytes)
      validate batch
      ok batch
