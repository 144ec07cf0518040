-- ===== src/Operations/RunPack.antt =====
-- src/run_pack.rs: a run pack's projection is admitted with a witness that the server's key attests, and
-- becomes an operation. serde_json, hmac, sha2, hex and chrono are parameters.
pub mod Laws
use mnemes.Prelude.{
  ℕ, Bool, true, false, ◌&&◌, ◌||◌, not, Option, none, some, List, [], ◌∷◌, ◌++◌, any, all, leb,
  length, ◌==◌, ◌!=◌, nat_eq, list_eq, if◌then◌else◌, Result, ok, err, ◌>>=◌, ◌>>◌, reject_if,
  ok_or,
}
use mnemes.Prelude.Bytes.{Bytes}
use mnemes.Prelude.Text.{Text, text, as_bytes}
use mnemes.Error.{MnemesError, invalid_provenance, words}
use mnemes.Profiles.Scope.{Verdict, is_absolute, has_parent_dir}
use mnemes.Operations.{OperationEnvelope, observe}

pub record RunPackAdmissionWitnessV1 : Type 0 where
  pub format : Text
  pub canonical_projection_digest : Text
  pub pack_manifest_digest : Text
  pub pack_content_digest : Text
  pub verification_receipt_digest : Text
  pub verified : Bool
  pub signature : Text

-- The records `Verification`, `Vault`, `Origin` and `EventSummary` of the source.
pub record Verification : Type 0 where
  pub verifier_contract_version : Text
  pub verified_at : Text
  pub verification_receipt_digest : Text
  pub outcome : Text

pub record Vault : Type 0 where
  pub object_id : Text
  pub relative_ref : Text
  pub retention_state : Text

pub record Origin : Type 0 where
  pub operator_adapter : Text
  pub source_device_ref : Option Text
  pub observed_at : Option Text
  pub recorded_at : Text

pub record EventSummary : Type 0 where
  pub terminal_state : Text
  pub receipt_chain_digest : Text
  pub artifact_digests : List Text

pub record RunPackEvidenceProjectionV1 : Type 0 where
  pub schema : Text
  pub projection_id : Text
  pub run_id : Text
  pub pack_manifest_digest : Text
  pub pack_content_digest : Text
  pub verification : Verification
  pub vault : Vault
  pub origin : Origin
  pub event_summary : EventSummary

-- What the crates give: the canonical bytes of a projection, the bytes of a witness less its signature,
-- the HMAC (none for a key that it refuses), the digest in hexadecimal, and the readings.
pub record Codec : Type 0 where
  pub projection_bytes : RunPackEvidenceProjectionV1 → Bytes
  pub witness_bytes : RunPackAdmissionWitnessV1 → Bytes
  pub hmac_sha256 : Bytes → Bytes → Option Bytes
  pub sha256_hex : Bytes → Text
  pub hex_decode : Text → Option Bytes
  pub is_rfc3339 : Text → Bool

abbrev pub is_lower_hex : ℕ → Bool
is_lower_hex c = (leb 48 c && leb c 57) || (leb 97 c && leb c 102)

unfoldable pub valid_digest : Text → Bool
valid_digest value = length (as_bytes value) == 64 && all is_lower_hex value

abbrev pub is_retention_state : Text → Bool
is_retention_state s =
    s == text "available"
    || s == text "quarantined"
    || s == text "pack_unavailable"
    || s == text "tampered"
    || s == text "superseded"

abbrev pub or_empty : Option Bytes → Bytes
or_empty none = []
or_empty (some bytes) = bytes

-- The digest of the canonical projection, as the witness states it.
abbrev pub projection_digest : Codec → RunPackEvidenceProjectionV1 → Text
projection_digest codec p = text "sha256:" ++ codec.sha256_hex (codec.projection_bytes p)

abbrev pub is_time : Codec → Option Text → Bool
is_time codec none = true
is_time codec (some value) = codec.is_rfc3339 value

unfoldable pub check_signature : Codec → Bytes → RunPackAdmissionWitnessV1 → Verdict
check_signature codec key w = do
  expected ←
      ok_or (codec.hmac_sha256 key (codec.witness_bytes w))
        (invalid_provenance (words "invalid run-pack attestation key"))
  let supplied = or_empty (codec.hex_decode w.signature)
  reject_if (length supplied != length expected || supplied != expected)
      (invalid_provenance (words "invalid run-pack admission witness signature"))

unfoldable pub check_witness :
    Codec → RunPackEvidenceProjectionV1 → RunPackAdmissionWitnessV1 → Verdict
check_witness codec p w =
    reject_if
      (w.format != text "mnemes.run-pack-admission-witness/v1"
        || not w.verified
        || w.canonical_projection_digest != projection_digest codec p
        || w.pack_manifest_digest != p.pack_manifest_digest
        || w.pack_content_digest != p.pack_content_digest
        || w.verification_receipt_digest != p.verification.verification_receipt_digest)
      (invalid_provenance
        (words "missing or mismatched server-attested run-pack admission witness"))

unfoldable pub check_projection : Codec → RunPackEvidenceProjectionV1 → Verdict
check_projection codec p = do
  reject_if
      (p.schema != text "RunPackEvidenceProjectionV1" || p.verification.outcome != text "verified")
      (invalid_provenance (words "unsupported or unverified run-pack projection"))
  reject_if
      (not (valid_digest p.projection_id)
        || not (valid_digest p.pack_manifest_digest)
        || not (valid_digest p.pack_content_digest)
        || not (valid_digest p.verification.verification_receipt_digest)
        || not (valid_digest p.event_summary.receipt_chain_digest)
        || any (λ digest. not (valid_digest digest)) p.event_summary.artifact_digests)
      (invalid_provenance (words "run-pack projection contains an invalid content digest"))
  reject_if (not (is_retention_state p.vault.retention_state))
      (invalid_provenance (words "unsupported run-pack retention state"))
  reject_if (is_absolute p.vault.relative_ref || has_parent_dir p.vault.relative_ref)
      (invalid_provenance (words "run-pack vault reference escapes its root"))
  reject_if (not (is_time codec p.origin.observed_at))
      (invalid_provenance (words "invalid observed_at"))

-- The tests of an import, after the token and the decoding.
unfoldable pub admit_run_pack :
    Codec
    → (attestation_key : Option Bytes) → RunPackEvidenceProjectionV1
    → RunPackAdmissionWitnessV1
    → Verdict
admit_run_pack codec attestation_key p w = do
  key ←
      ok_or attestation_key
        (invalid_provenance (words "run-pack admission attestation is not configured"))
  check_signature codec key w
  check_witness codec p w
  check_projection codec p

-- The operation that an import submits: `bytes` is what was received, and `operation_id` is random.
unfoldable pub run_pack_operation :
    Codec
    → (bytes : Bytes) → (operation_id device_id actor_id : Text) → RunPackEvidenceProjectionV1
    → OperationEnvelope
run_pack_operation codec bytes operation_id device_id actor_id p = record {
  operation_id = operation_id;
  idempotency_key =
      text "mnemes-run-pack-import:" ++ (p.pack_manifest_digest ++ (text ":" ++ p.schema));
  requesting_device_id = device_id;
  requesting_actor_id = actor_id;
  recording_device_id = device_id;
  recording_server_id = device_id;
  operation_kind = observe;
  target_kind = text "run_pack_projection";
  target_id = p.projection_id;
  content_digest = text "sha256:" ++ codec.sha256_hex bytes;
  observed_at = p.origin.observed_at;
  valid_time = p.origin.observed_at;
  recorded_at = [];
  receipt_id = none;
}
