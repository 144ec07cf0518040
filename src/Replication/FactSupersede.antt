-- ===== src/Replication/FactSupersede.antt =====
-- src/replication/fact_supersede.rs: the signed transport request of one supersession, around an
-- envelope of its owner. `entries[0]` of an empty list is a panic, the case `none` of `first_entry`.
pub mod Laws
use mathlib.Core.Option
use mnemes.Prelude.{
  ℕ, String, Bool, ◌||◌, not, Option, none, some, List, [], ◌∷◌, ◌++◌, length, ltb, ◌%◌, ◌^◌, ◌==◌,
  ◌!=◌, nat_eq, list_eq, Result, ok, err, ◌>>=◌, ◌>>◌, reject_if, map_err,
}
use mnemes.Prelude.Bytes.{Bytes, to_be_bytes}
use mnemes.Prelude.Text.{Text, text, as_bytes}
use mnemes.Prelude.Int.{ℤ, pos, int_eq, ltb_ℤ, i64_bits}
use mnemes.Replication.Roles.{SignerRole, device_writer, mutation, role_u8, role_eq}
use mnemes.Replication.Error.{
  ReplicationError, unsupported_protocol_version, role_artifact_mismatch, field_exceeds_max_length,
  pre_collision_validation, words, caused, invalid_public_key, signature_verification,
}
use mnemes.Replication.Parts.{Part, raw, sized, encode_parts}
use mnemes.Replication.Crypto.{Crypto}
use mnemes.Replication.Canonical.{Check}
use mnemes.Replication.Transport.{
  FactSupersedeOwner, max_id_bytes, max_fencing_token_bytes, max_wire_bytes, max_entries,
  check_text, zeros,
}

abbrev pub protocol_family : Text
protocol_family = text "mnemes.fact-supersede.v1"

abbrev pub protocol_version : ℕ
protocol_version = 1

abbrev pub signature_domain : Bytes
signature_domain = text "mnemes/fact-supersede-batch/signature/v1\0"

pub record FactSupersedeTransportEntryV1 (o : FactSupersedeOwner) : Type 0 where
  pub owner_envelope : o.ReplicaEnvelope

pub record SignedFactSupersedeBatchV1 (o : FactSupersedeOwner) : Type 0 where
  pub protocol_family : Text
  pub protocol_version : ℕ  -- u16
  pub batch_id : Text
  pub home_device_id : Text
  pub store_id : Text
  pub store_epoch : ℕ  -- u64
  pub writer_epoch : ℕ  -- u64
  pub owner_stream_epoch : ℕ  -- u64
  pub start_sequence : ℤ  -- i64
  pub entries : List (FactSupersedeTransportEntryV1 o)
  pub signer_principal_id : Text
  pub signer_role : SignerRole
  pub signer_key_version : ℕ  -- u64
  pub observed_at : ℕ  -- u64
  pub fencing_token : Text
  pub signer_public_key : Bytes  -- [u8; 32]
  pub signature : Bytes  -- [u8; 64]

module _ (o : FactSupersedeOwner) where
  open o use {ReplicaEnvelope, validate_replica_envelope, payload_namespace}

  abbrev pub from_owner_envelope : ReplicaEnvelope → FactSupersedeTransportEntryV1 o
  from_owner_envelope envelope = record { owner_envelope = envelope }

  abbrev pub text_fields : SignedFactSupersedeBatchV1 o → List (String × Text × ℕ)
  text_fields b =
      ("batch_id", b.batch_id, max_id_bytes)
      ∷ ("home_device_id", b.home_device_id, max_id_bytes)
      ∷ ("store_id", b.store_id, max_id_bytes)
      ∷ ("signer_principal_id", b.signer_principal_id, max_id_bytes)
      ∷ ("fencing_token", b.fencing_token, max_fencing_token_bytes)
      ∷ []

  -- The tests from the number of the entries on; the length test leaves the first clause alone.
  unfoldable pub check_binding :
      SignedFactSupersedeBatchV1 o → List (FactSupersedeTransportEntryV1 o) → Check
  check_binding b (entry ∷ []) =
      let envelope = entry.owner_envelope in
      reject_if
        (o.home_device_id envelope != b.home_device_id
          || o.store_id envelope != b.store_id
          || o.stream_epoch envelope != b.owner_stream_epoch
          || o.sequence envelope != b.start_sequence)
        (pre_collision_validation
          (words "fact-supersede transport does not exactly bind owner envelope identity"))
  check_binding b entries = err (field_exceeds_max_length "entries" (length entries) max_entries)

  unfoldable pub validate_structure : SignedFactSupersedeBatchV1 o → Check
  validate_structure b = do
    reject_if (b.protocol_family != protocol_family)
        (pre_collision_validation (words "fact-supersede protocol family mismatch"))
    reject_if (b.protocol_version != protocol_version)
        (unsupported_protocol_version b.protocol_version)
    reject_if (b.signer_role != device_writer) (role_artifact_mismatch b.signer_role mutation)
    check_text "fact-supersede" (text_fields b)
    reject_if (b.store_epoch == 0 || b.writer_epoch == 0 || b.owner_stream_epoch == 0) (
        pre_collision_validation
          (words "fact-supersede transport generation fields must be positive"))
    reject_if (ltb_ℤ b.start_sequence (pos 1))
        (pre_collision_validation (words "fact-supersede start_sequence must be positive"))
    check_binding b b.entries

  -- The appends that one round of the loop over the entries makes.
  abbrev pub entry_parts : List (FactSupersedeTransportEntryV1 o) → List Part
  entry_parts [] = []
  entry_parts (e ∷ es) =
      sized (as_bytes (o.home_device_id e.owner_envelope)) "owner_home_device_id"
      ∷ sized (as_bytes (o.store_id e.owner_envelope)) "owner_store_id"
      ∷ raw (to_be_bytes 8 (o.stream_epoch e.owner_envelope))
      ∷ raw (to_be_bytes 8 (i64_bits (o.sequence e.owner_envelope)))
      ∷ sized (as_bytes (o.operation_kind e.owner_envelope)) "owner_operation_kind"
      ∷ sized (as_bytes (o.payload_schema e.owner_envelope)) "owner_payload_schema"
      ∷ sized (o.payload e.owner_envelope) "owner_payload"
      ∷ raw (o.payload_digest e.owner_envelope)
      ∷ raw (o.predecessor_digest e.owner_envelope)
      ∷ raw (o.envelope_digest e.owner_envelope)
      ∷ entry_parts es

  abbrev pub batch_parts : SignedFactSupersedeBatchV1 o → List Part
  batch_parts b =
      sized (as_bytes b.protocol_family) "protocol_family"
      ∷ raw (to_be_bytes 2 b.protocol_version)
      ∷ sized (as_bytes b.batch_id) "batch_id"
      ∷ sized (as_bytes b.home_device_id) "home_device_id"
      ∷ sized (as_bytes b.store_id) "store_id"
      ∷ raw (to_be_bytes 8 b.store_epoch)
      ∷ raw (to_be_bytes 8 b.writer_epoch)
      ∷ raw (to_be_bytes 8 b.owner_stream_epoch)
      ∷ raw (to_be_bytes 8 (i64_bits b.start_sequence))
      ∷ raw (to_be_bytes 4 (length b.entries % 2 ^ 32))
      ∷ (entry_parts b.entries
          ++ (sized (as_bytes b.signer_principal_id) "signer_principal_id"
              ∷ raw (role_u8 b.signer_role ∷ [])
              ∷ raw (to_be_bytes 8 b.signer_key_version)
              ∷ raw (to_be_bytes 8 b.observed_at)
              ∷ sized (as_bytes b.fencing_token) "fencing_token"
              ∷ []))

  unfoldable pub signing_preimage : SignedFactSupersedeBatchV1 o → Result ReplicationError Bytes
  signing_preimage b = encode_parts signature_domain (batch_parts b)

  unfoldable pub batch_new :
      (batch_id home_device_id store_id : Text) (store_epoch writer_epoch owner_stream_epoch : ℕ)
      (start_sequence : ℤ) (entries : List (FactSupersedeTransportEntryV1 o))
      (signer_principal_id : Text) (signer_key_version observed_at : ℕ) (fencing_token : Text)
      → Result ReplicationError (SignedFactSupersedeBatchV1 o)
  batch_new batch_id home_device_id store_id store_epoch writer_epoch owner_stream_epoch
        start_sequence entries signer_principal_id signer_key_version observed_at fencing_token =
      let batch : SignedFactSupersedeBatchV1 o = record {
        protocol_family = protocol_family;
        protocol_version = protocol_version;
        batch_id = batch_id;
        home_device_id = home_device_id;
        store_id = store_id;
        store_epoch = store_epoch;
        writer_epoch = writer_epoch;
        owner_stream_epoch = owner_stream_epoch;
        start_sequence = start_sequence;
        entries = entries;
        signer_principal_id = signer_principal_id;
        signer_role = device_writer;
        signer_key_version = signer_key_version;
        observed_at = observed_at;
        fencing_token = fencing_token;
        signer_public_key = zeros 32;
        signature = zeros 64;
      } in
      validate_structure batch >> ok batch

  unfoldable pub first_entry : List (FactSupersedeTransportEntryV1 o) → Option ReplicaEnvelope
  first_entry [] = none
  first_entry (e ∷ es) = some e.owner_envelope

  -- The owner's validation of the first entry, with the error under `message`.
  unfoldable pub owner_payload :
      (Text → ReplicationError) → Option ReplicaEnvelope → Option (Result ReplicationError Bytes)
  owner_payload message none = none
  owner_payload message (some envelope) =
      some (map_err message (validate_replica_envelope envelope))

  -- `?` before code that may panic.
  abbrev pub or_return {ℓ} :
      {A : Type ℓ} → Check → Option (Result ReplicationError A) → Option (Result ReplicationError A)
  or_return (ok _) rest = rest
  or_return (err e) rest = some (err e)

  abbrev pub projected_namespace : Result ReplicationError Bytes → Result ReplicationError Text
  projected_namespace payload = payload >>= λ bytes.
      map_err
        (λ e.
          pre_collision_validation
            (caused "owner-validated replacement payload cannot project namespace" e))
        (payload_namespace bytes)

  unfoldable pub replacement_namespace :
      SignedFactSupersedeBatchV1 o → Option (Result ReplicationError Text)
  unfolding owner_payload first_entry
  replacement_namespace b =
      Option.map projected_namespace
        (owner_payload (λ e. pre_collision_validation (caused "" e)) (first_entry b.entries))

  module _ (c : Crypto) where
    open c use {SigningKey, public_bytes, sign, from_bytes, verify}

    unfoldable pub check_batch_signature : SignedFactSupersedeBatchV1 o → Check
    check_batch_signature b = do
      key ← map_err invalid_public_key (from_bytes b.signer_public_key)
      preimage ← signing_preimage b
      map_err signature_verification (verify key preimage b.signature)

    unfoldable pub sign_batch :
        SignedFactSupersedeBatchV1 o
        → SigningKey
        → Result ReplicationError (SignedFactSupersedeBatchV1 o)
    sign_batch b signing_key = do
      validate_structure b
      let keyed = record b { signer_public_key = public_bytes signing_key }
      preimage ← signing_preimage keyed
      ok (record keyed { signature = sign signing_key preimage })

    unfoldable pub validate : SignedFactSupersedeBatchV1 o → Option Check
    unfolding owner_payload first_entry
    validate b =
        or_return (validate_structure b)
          (elim (owner_payload
            (λ e.
              pre_collision_validation
                (caused "semantic-memory fact-supersede validation failed" e))
            (first_entry b.entries)) [
              | none ↦ none
              | some payload ↦ some (payload >>= λ bytes. check_batch_signature b)
            ])

    returned :
        Option Check → Option ReplicaEnvelope → Option (Result ReplicationError ReplicaEnvelope)
    returned none entry = none
    returned (some (err e)) entry = some (err e)
    returned (some (ok _)) none = none
    returned (some (ok _)) (some envelope) = some (ok envelope)

    unfoldable pub semantic_envelope :
        SignedFactSupersedeBatchV1 o → Option (Result ReplicationError ReplicaEnvelope)
    unfolding returned first_entry
    semantic_envelope b = returned (validate b) (first_entry b.entries)

    -- `from_slice` is `serde_json::from_slice` at the batch, with the words of its error.
    unfoldable pub decode_json :
        (Bytes → Result Text (SignedFactSupersedeBatchV1 o))
        → Bytes
        → Option (Result ReplicationError (SignedFactSupersedeBatchV1 o))
    decode_json from_slice bytes =
        or_return
          (reject_if (ltb max_wire_bytes (length bytes))
            (field_exceeds_max_length "wire_body" (length bytes) max_wire_bytes))
          (elim (from_slice bytes) [
            | err e ↦ some (
                err (
                  pre_collision_validation
                    (caused "fact-supersede transport JSON decode failed" e)))
            | ok batch ↦ elim (validate batch) [
              | none ↦ none
              | some verdict ↦ some (verdict >> ok batch)
            ]
          ])
