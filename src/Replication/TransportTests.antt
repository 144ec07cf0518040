-- ===== src/Replication/TransportTests.antt =====
-- The transport profiles at a concrete batch and a concrete request, with a toy owner.
use mnemes.Prelude.{
  ◌≡◌, refl, ◌↔◌, true, some, [], ◌∷◌, arith, ok, err, list_beq, list_beq_iff, length, ◌++◌,
}
use mnemes.Prelude.Bytes.{Bytes, to_be_bytes}
use mnemes.Prelude.Text.{text, as_bytes, trim}
use mnemes.Prelude.Int.{pos, i64_bits}
use mnemes.Replication.Roles.{device_writer}
use mnemes.Replication.Parts.{encode_bytes, encode_parts}
use mnemes.Replication.Tests.{toy, repeat}
use mnemes.Replication.Transport.{FactCreateJournal, FactSupersedeOwner, check_text}
use mnemes.Replication.FactCreate
use mnemes.Replication.FactCreate.{
  FactCreateTransportEntryV1, SignedFactCreateBatchV1, check_sequences, check_entries, sign_batch,
}
use mnemes.Replication.FactCreate.Laws.{IsWellFormed, validate_structure_iff}
use mnemes.Replication.FactCreate.Laws.Coverage.{IsTypedBatch, SameBatch, signing_preimage_covers}
use mnemes.Replication.FactCreate.Laws.Signing.{IsKeyPair, sign_batch-validate}
use mnemes.Replication.FactSupersede
use mnemes.Replication.FactSupersede.{
  FactSupersedeTransportEntryV1, SignedFactSupersedeBatchV1, check_binding, from_owner_envelope,
  semantic_envelope, replacement_namespace,
}
use mnemes.Replication.FactSupersede.Laws.Passing.{Passes, semantic_envelope_iff}
use mnemes.Replication.Domains.{fact_create_signature, domains_disjoint}

-- A journal record of the toy journal is its payload, at sequence 1.
abbrev journal : FactCreateJournal
journal = record {
  JournalEntry = Bytes;
  operation_kind = λ e. text "fact_create";
  payload_schema = λ e. text "v1";
  record_state = λ e. text "verified";
  sequence = λ e. pos 1;
  payload = λ e. e;
  payload_digest = λ e. repeat 32 (length e);
  predecessor_digest = λ e. repeat 32 0;
  envelope_digest = λ e. repeat 32 1;
  fact_create_operation = text "fact_create";
  fact_create_payload_schema = text "v1";
  verified_record_state = text "verified";
  ReplicaEnvelope = Bytes;
  replica_envelope = λ device store epoch seq kind schema payload digest previous envelope. payload;
  validate_replica_envelope =
      λ payload. elim payload [ [] ↦ err (text "empty payload") | b ∷ bs ↦ ok tt ];
}

abbrev fact_record : FactCreateTransportEntryV1
fact_record = record {
  sequence = pos 1;
  payload = text "fact";
  payload_digest = repeat 32 4;
  predecessor_digest = repeat 32 0;
  journal_envelope_digest = repeat 32 1;
}

abbrev batch : SignedFactCreateBatchV1
batch = record {
  protocol_version = 1;
  batch_id = text "batch-1";
  home_device_id = text "device-1";
  store_id = text "store-1";
  stream_epoch = 1;
  start_sequence = pos 1;
  entries = fact_record ∷ [];
  signer_principal_id = text "operator-1";
  signer_role = device_writer;
  signer_key_version = 1;
  observed_at = 1000000;
  fencing_token = text "fence-1";
  signer_public_key = repeat 32 0;
  signature = repeat 64 0;
}

abbrev other_batch : SignedFactCreateBatchV1
other_batch = record batch { signature = repeat 64 5 }

opened : Unit {0}
unfolding list_beq to_be_bytes as_bytes trim encode_bytes encode_parts i64_bits check_text
    check_sequences FactCreate.validate_structure FactCreate.signing_preimage check_entries
opened = tt

batch_accepted : FactCreate.validate_structure batch ≡ ok tt
unfolding opened
batch_accepted = refl

other_accepted : FactCreate.validate_structure other_batch ≡ ok tt
unfolding opened
other_accepted = refl

abbrev batch_bytes : Bytes
unfolding opened
batch_bytes = elim (FactCreate.signing_preimage batch) [ ok p ↦ p | err e ↦ [] ]

encodings :
    (FactCreate.signing_preimage batch ≡ ok batch_bytes)
    × (FactCreate.signing_preimage other_batch ≡ ok batch_bytes)
unfolding opened
encodings = (refl, refl)

typed : IsTypedBatch batch
typed = omega arith

other-typed : IsTypedBatch other_batch
other-typed = omega arith

validate_structure_iff_example : (FactCreate.validate_structure batch ≡ ok tt) ↔ IsWellFormed batch
validate_structure_iff_example = validate_structure_iff batch

signing_preimage_covers_example : SameBatch batch other_batch
signing_preimage_covers_example =
    signing_preimage_covers batch other_batch typed other-typed batch_accepted other_accepted
      encodings.0 encodings.1

abbrev key : Bytes
key = repeat 32 9

toy_key : (k : Bytes) → list_beq (k ++ k) (k ++ k) ≡ true
toy_key k = (list_beq_iff (k ++ k) (k ++ k)).1 refl

toy_key-IsKeyPair : IsKeyPair toy key
toy_key-IsKeyPair = record { key = key; decodes = refl; verifies = λ m. rw (toy_key key) refl }

record_accepted : check_entries journal batch batch.entries ≡ ok tt
unfolding opened FactCreate.to_semantic_envelope
record_accepted = refl

sign_batch-validate_example :
    (p : Bytes) × (FactCreate.signing_preimage batch ≡ ok p)
    × (sign_batch toy batch key
        ≡ ok (record batch { signer_public_key = key; signature = toy.sign key p }))
    × (FactCreate.validate toy journal
          (record batch { signer_public_key = key; signature = toy.sign key p })
        ≡ ok tt)
sign_batch-validate_example =
    sign_batch-validate toy journal batch key batch_accepted (omega arith, tt) record_accepted
      toy_key-IsKeyPair

-- An envelope of the toy owner is its payload, for device-1 and store-1.
abbrev owner : FactSupersedeOwner
owner = record {
  ReplicaEnvelope = Bytes;
  home_device_id = λ e. text "device-1";
  store_id = λ e. text "store-1";
  stream_epoch = λ e. 1;
  sequence = λ e. pos 1;
  operation_kind = λ e. text "fact_supersede";
  payload_schema = λ e. text "v1";
  payload = λ e. e;
  payload_digest = λ e. repeat 32 (length e);
  predecessor_digest = λ e. repeat 32 0;
  envelope_digest = λ e. repeat 32 1;
  validate_replica_envelope =
      λ payload. elim payload [ [] ↦ err (text "empty payload") | b ∷ bs ↦ ok (b ∷ bs) ];
  payload_namespace = λ payload. ok (text "default");
}

abbrev request : SignedFactSupersedeBatchV1 owner
request = record {
  protocol_family = FactSupersede.protocol_family;
  protocol_version = 1;
  batch_id = text "batch-2";
  home_device_id = text "device-1";
  store_id = text "store-1";
  store_epoch = 1;
  writer_epoch = 1;
  owner_stream_epoch = 1;
  start_sequence = pos 1;
  entries = from_owner_envelope owner (text "new fact") ∷ [];
  signer_principal_id = text "operator-1";
  signer_role = device_writer;
  signer_key_version = 1;
  observed_at = 1000000;
  fencing_token = text "fence-1";
  signer_public_key = key;
  signature = key ++ key;
}

request_passes : semantic_envelope owner toy request ≡ some (ok (text "new fact"))
unfolding opened semantic_envelope FactSupersede.validate FactSupersede.validate_structure
    check_binding FactSupersede.check_batch_signature FactSupersede.signing_preimage
    FactSupersede.owner_payload FactSupersede.first_entry
request_passes = refl

semantic_envelope_iff_example :
    (semantic_envelope owner toy request ≡ some (ok (text "new fact")))
    ↔ Passes owner toy request (text "new fact")
semantic_envelope_iff_example = semantic_envelope_iff owner toy request (text "new fact")

domains_disjoint_example : fact_create_signature ≡ fact_create_signature
domains_disjoint_example =
    domains_disjoint owner toy fact_create_signature fact_create_signature batch_bytes
      (batch, encodings.0) (other_batch, encodings.1)
