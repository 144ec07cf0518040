-- ===== src/Operations/Tests.antt =====
-- Submissions of concrete operations.
use mnemes.Prelude.{Bool, true, ◌≡◌, ◌↔◌, refl, none, some, List, [], ◌∷◌, ok, list_beq}
use mnemes.Prelude.Text.{Text, text, as_bytes}
use mnemes.Registry.{find_row}
use mnemes.Operations.{
  observe, OperationEnvelope, get_operation_by_idempotency_key, judge, look_up, receipt_of,
  insert_operation, finish, Submission, submit_operation, submit_all,
}
use mnemes.Prelude.Bytes.{Bytes}
use mnemes.Profiles.Scope.{split_path}
use mnemes.Operations.RunPack.{
  Codec, RunPackAdmissionWitnessV1, RunPackEvidenceProjectionV1, valid_digest, check_signature,
  check_witness, check_projection, admit_run_pack,
}
use mnemes.Operations.RunPack.Laws.{IsSigned, IsWitnessOf, IsProjection, admit_run_pack_iff}

abbrev known : Text → Bool
known id = true

abbrev operation : Text → Text → Text → OperationEnvelope
operation id key digest = record {
  operation_id = id;
  idempotency_key = key;
  requesting_device_id = text "device-1";
  requesting_actor_id = text "actor-1";
  recording_device_id = text "device-1";
  recording_server_id = text "device-1";
  operation_kind = observe;
  target_kind = text "note";
  target_id = text "note-1";
  content_digest = digest;
  observed_at = none;
  valid_time = none;
  recorded_at = [];
  receipt_id = none;
}

abbrev recorded : Text → Text → Text → OperationEnvelope
recorded id key digest = record (operation id key digest) { receipt_id = some (receipt_of id) }

opened : Unit {0}
unfolding list_beq find_row get_operation_by_idempotency_key judge look_up insert_operation finish
    submit_operation submit_all
opened = tt

-- A submission of another key that ends between a look-up and an insertion.
abbrev meanwhile : List Submission
meanwhile =
    record { now = []; envelope = operation (text "0") (text "l") (text "e"); seen = [] } ∷ []

abbrev others_first : List OperationEnvelope
others_first = submit_all known known meanwhile []

abbrev rows : List OperationEnvelope
rows = recorded (text "0") (text "l") (text "e") ∷ recorded (text "1") (text "k") (text "d") ∷ []

-- A submission of the same key whose look-up saw no row.
abbrev stale : List Submission
stale = record { now = []; envelope = operation (text "2") (text "k") (text "e"); seen = [] } ∷ []

-- Two submissions of one key whose look-ups both come before their insertions leave two rows, and both
-- get a receipt.
raced :
    submit_operation known known []
      (operation (text "2") (text "k") (text "e"))
      []
      (recorded (text "1") (text "k") (text "d") ∷ [])
    ≡ ok (
      receipt_of (text "2"),
      recorded (text "1") (text "k") (text "d") ∷ recorded (text "2") (text "k") (text "e") ∷ [],
    )
unfolding opened
raced = refl

abbrev digest_64 : Text
digest_64 = text "0123456789abcdef0123456789abcdef0123456789abcdef0123456789abcdef"

abbrev codec : Codec
codec = record {
  projection_bytes = λ p. [];
  witness_bytes = λ w. [];
  hmac_sha256 = λ key bytes. some key;
  sha256_hex = λ bytes. digest_64;
  hex_decode = λ t. some (7 ∷ []);
  is_rfc3339 = λ t. true;
}

abbrev projection : RunPackEvidenceProjectionV1
projection = record {
  schema = text "RunPackEvidenceProjectionV1";
  projection_id = digest_64;
  run_id = text "run";
  pack_manifest_digest = digest_64;
  pack_content_digest = digest_64;
  verification = record {
    verifier_contract_version = text "1";
    verified_at = [];
    verification_receipt_digest = digest_64;
    outcome = text "verified";
  };
  vault = record {
    object_id = text "object";
    relative_ref = text "packs/run";
    retention_state = text "available";
  };
  origin = record {
    operator_adapter = text "adapter";
    source_device_ref = none;
    observed_at = none;
    recorded_at = [];
  };
  event_summary = record {
    terminal_state = text "done";
    receipt_chain_digest = digest_64;
    artifact_digests = digest_64 ∷ [];
  };
}

abbrev witness : RunPackAdmissionWitnessV1
witness = record {
  format = text "mnemes.run-pack-admission-witness/v1";
  canonical_projection_digest =
      text "sha256:0123456789abcdef0123456789abcdef0123456789abcdef0123456789abcdef";
  pack_manifest_digest = digest_64;
  pack_content_digest = digest_64;
  verification_receipt_digest = digest_64;
  verified = true;
  signature = text "07";
}

admitted : admit_run_pack codec (some (7 ∷ [])) projection witness ≡ ok tt
unfolding list_beq as_bytes split_path valid_digest check_signature check_witness check_projection
    admit_run_pack
admitted = refl

admit_run_pack_iff_example : (admit_run_pack codec (some (7 ∷ [])) projection witness ≡ ok tt) ↔ (
    (key : Bytes) × (some (7 ∷ []) ≡ some key)
    × IsSigned codec key witness
    × IsWitnessOf codec projection witness
    × IsProjection codec projection)
admit_run_pack_iff_example = admit_run_pack_iff codec (some (7 ∷ [])) projection witness
