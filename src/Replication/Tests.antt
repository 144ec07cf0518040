-- ===== src/Replication/Tests.antt =====
-- The protocol at a concrete envelope, with a toy hash and a toy signature scheme.
use mnemes.Prelude.{
  ℕ, ◌≡◌, refl, ◌≢◌, ◌↔◌, ◌⊎◌, true, false, ◌&&◌, some, none, List, [], ◌∷◌, ◌++◌, arith, ok, err,
  if◌then◌else◌, ◌==◌, list_eq, nat_eq, list_beq, length, Any, ◌+◌, ◌<◌, zero, suc,
}
use Prim.Native.Nat.{◌^◌}
use mnemes.Prelude.Bytes.{Bytes, to_be_bytes}
use mnemes.Prelude.Text.{text, as_bytes, trim}
use mnemes.Replication.Roles.{
  device_writer, mutation, promotion, role_from_u8, artifact_from_u8, may_sign,
}
use mnemes.Replication.Parts.{encode_bytes, encode_parts}
use mnemes.Replication.Error.{artifact_permission_mismatch}
use mnemes.Replication.Envelope.{MemoryMutationEnvelopeV1, IsTyped, signing_preimage, same_identity}
use mnemes.Replication.Crypto.{Crypto}
use mnemes.Replication.Canonical.{
  validate_envelope, canonical_digest, check_version, check_codes, check_required,
  check_payload_present, find_control, check_controls, check_lengths, check_payload_limit,
  check_interval, check_payload, check_sizes, check_matrix, check_signature,
}
use mnemes.Replication.Canonical.Laws.{IsValid, validate_envelope_iff}
use mnemes.Replication.Canonical.Digest.{Collision, canonical_digest_binds}
use mnemes.Replication.Envelope.Laws.{SameSigned, signing_preimage_injective}
use mnemes.Replication.Envelope.Identity.{SharesIdentity}
use mnemes.Replication.StateMachine.{
  ReplicaState, installing_snapshot, catching_up, current, gap_detected, quarantined, rejected,
  retired, can_transition_to, watermark_new, accepts_next, validate_identity_collision,
}
use mnemes.Replication.StateMachine.Runs.{
  Run, last, Untrusted, suspect, needs_snapshot, terminal_or_recoverable,
}
use mnemes.Replication.StateMachine.Watermark.{Hop, Follows, end, sequence-end}
use mnemes.Replication.StateMachine.Collision.{validate_identity_collision_sound}
use mnemes.Replication.TrustedKey.Registry.{try_admit_lem}
use mnemes.Replication.TrustedKey.Admission.{
  HasTrustedKey, SignedByRegistry, validate_admitted_envelope_iff, admitted_signature,
}
use mnemes.Replication.TrustedKey.{
  single, TrustedKeyRecord, TrustedKeyRegistry, allows, find_key, lookup, try_admit, check_scope,
  check_record, validate_trusted_key, validate_admitted_envelope,
}

abbrev pub repeat : ℕ → ℕ → Bytes
repeat zero b = []
repeat (suc n) b = b ∷ repeat n b

abbrev pub toy : Crypto
toy = record {
  SigningKey = Bytes;
  public_bytes = λ k. k;
  sign = λ k message. k ++ k;
  VerifyingKey = Bytes;
  sha256 = λ b. repeat 32 (length b);
  from_bytes = λ b. ok b;
  verify = λ key message signature.
      if list_beq signature (key ++ key) then ok tt else err (text "bad signature");
}

abbrev pub sample : MemoryMutationEnvelopeV1
sample = record {
  protocol_version = 1;
  artifact_kind = mutation;
  operation_schema_version = 1;
  semantic_schema_generation = 1;
  operation_id = text "operation-1";
  idempotency_key = text "idem-1";
  home_device_id = text "device-1";
  store_id = text "store-1";
  actor_id = text "actor-1";
  store_epoch = 1;
  writer_epoch = 1;
  sequence = 1;
  previous_envelope_digest = repeat 32 0;
  fencing_token = text "fence-1";
  namespace = text "default";
  operation_kind = text "fact_append";
  canonical_payload = text "payload";
  payload_digest = repeat 32 7;
  payload_length = 7;
  requested_effect_digest = repeat 32 2;
  policy_version = 1;
  authorization_snapshot_id = repeat 16 0;
  authorization_snapshot_digest = repeat 32 3;
  authority_receipt_digest = repeat 32 4;
  signer_principal_id = text "operator-1";
  signer_role = device_writer;
  signer_key_version = 1;
  observed_at = 1000000;
  valid_from = 1000000;
  valid_to = 2000000;
  signer_public_key = repeat 32 9;
  signature = repeat 64 9;
}

abbrev key_record : TrustedKeyRecord
key_record = record {
  signer_principal_id = text "operator-1";
  signer_key_version = 1;
  public_key = repeat 32 9;
  signer_role = device_writer;
  allowed_artifacts = single mutation;
  activated_at = 5;
  cutoff_at = 3000000;
  revoked = false;
  home_device_id = text "device-1";
  store_id = text "store-1";
  namespace = text "default";
}

abbrev registry : TrustedKeyRegistry
registry = record { keys = key_record ∷ [] }

-- All that an evaluation has to see through.
opened : Unit {0}
unfolding list_beq to_be_bytes as_bytes trim encode_bytes encode_parts signing_preimage role_from_u8
    artifact_from_u8 may_sign check_version check_codes check_required check_payload_present
    find_control check_controls check_lengths check_payload_limit check_interval check_payload
    check_sizes check_matrix check_signature validate_envelope canonical_digest same_identity allows
    find_key lookup try_admit check_scope check_record validate_trusted_key
    validate_admitted_envelope
opened = tt

sample_admitted : validate_admitted_envelope toy sample registry ≡ ok tt
unfolding opened
sample_admitted = refl

sample_blank : validate_envelope toy (record sample { store_id = text " \t" }) ≢ ok tt
unfolding opened
sample_blank e = cc

sample-IsTyped : IsTyped sample
sample-IsTyped = omega arith

sample_valid : validate_envelope toy sample ≡ ok tt
unfolding opened
sample_valid = refl

abbrev resigned : MemoryMutationEnvelopeV1
resigned = record sample { signature = repeat 64 1; canonical_payload = text "PAYLOAD" }

abbrev sample_preimage : Bytes
unfolding opened
sample_preimage = elim (signing_preimage sample) [ ok p ↦ p | err e ↦ [] ]

preimages :
    (signing_preimage sample ≡ ok sample_preimage)
    × (signing_preimage resigned ≡ ok sample_preimage)
unfolding opened
preimages = (refl, refl)

digests :
    (canonical_digest toy sample ≡ ok (repeat 32 398))
    × (canonical_digest toy resigned ≡ ok (repeat 32 398))
unfolding opened
digests = (refl, refl)

resigned-IsTyped : IsTyped resigned
resigned-IsTyped = omega arith

abbrev forged : MemoryMutationEnvelopeV1
forged = record sample { operation_kind = text "fact_delete" }

collisions :
    (validate_identity_collision toy sample sample ≡ ok tt) × (same_identity sample forged ≡ true)
unfolding opened validate_identity_collision
collisions = (refl, refl)

forged_valid : validate_envelope toy forged ≡ ok tt
unfolding opened
forged_valid = refl

abbrev narrow_key : TrustedKeyRecord
narrow_key = record key_record { allowed_artifacts = single promotion }

narrow_refused :
    validate_trusted_key sample (record { keys = narrow_key ∷ [] })
    ≡ err (artifact_permission_mismatch mutation mutation)
unfolding opened
narrow_refused = refl

abbrev operator : Bytes
operator = text "operator-1"

key_found : lookup registry operator 1 ≡ some key_record
unfolding opened
key_found = refl

legal : Run quarantined (installing_snapshot ∷ catching_up ∷ current ∷ [])
unfolding can_transition_to
legal = (refl, (refl, (refl, tt)))

abbrev hops : List Hop
hops =
    record { sequence = 5; previous = text "a"; digest = text "b" }
    ∷ record { sequence = 6; previous = text "b"; digest = text "c" }
    ∷ []

chained : Follows (watermark_new 4 (text "a")) hops
unfolding accepts_next opened
chained = (refl, (refl, tt))

validate_envelope_iff_example : (validate_envelope toy sample ≡ ok tt) ↔ IsValid toy sample
validate_envelope_iff_example = validate_envelope_iff toy sample

validate_admitted_envelope_iff_example :
    (validate_admitted_envelope toy sample registry ≡ ok tt)
    ↔ (IsValid toy sample × HasTrustedKey registry sample)
validate_admitted_envelope_iff_example = validate_admitted_envelope_iff toy sample registry

admitted_signature_example : SignedByRegistry toy sample registry
admitted_signature_example = admitted_signature toy sample registry sample_admitted

signing_preimage_injective_example : SameSigned sample resigned
signing_preimage_injective_example =
    signing_preimage_injective sample resigned sample-IsTyped resigned-IsTyped preimages.0
      preimages.1

canonical_digest_binds_example : SameSigned sample resigned ⊎ Collision toy sample resigned
canonical_digest_binds_example =
    canonical_digest_binds toy sample resigned sample-IsTyped resigned-IsTyped digests.0 digests.1

validate_identity_collision_sound_example :
    IsValid toy sample
    × IsValid toy sample
    × (SharesIdentity sample sample → SameSigned sample sample ⊎ Collision toy sample sample)
validate_identity_collision_sound_example =
    validate_identity_collision_sound toy sample sample sample-IsTyped sample-IsTyped collisions.0

try_admit_lem_example :
    ((lookup registry operator 1 ≢ none)
      × ((try_admit registry narrow_key).0 ≢ ok tt)
      × ((try_admit registry narrow_key).1 ≡ registry))
    ⊎ ((lookup registry operator 1 ≡ none)
        × ((try_admit registry narrow_key).0 ≡ ok tt)
        × (lookup (try_admit registry narrow_key).1 operator 1 ≡ (
            if narrow_key.signer_principal_id == operator && narrow_key.signer_key_version == 1
            then some narrow_key
            else lookup registry operator 1)))
try_admit_lem_example = try_admit_lem registry narrow_key operator 1

needs_snapshot_example :
    Any (λ t. t ≡ installing_snapshot) (installing_snapshot ∷ catching_up ∷ current ∷ [])
    ⊎ Untrusted current
needs_snapshot_example =
    needs_snapshot quarantined (installing_snapshot ∷ catching_up ∷ current ∷ []) suspect legal

terminal_or_recoverable_example :
    (((gap_detected ≡ rejected) ⊎ (gap_detected ≡ retired))
      × ((ts : List ReplicaState) → Run gap_detected ts → last gap_detected ts ≡ gap_detected))
    ⊎ ((ts : List ReplicaState) × Run gap_detected ts × (last gap_detected ts ≡ current))
terminal_or_recoverable_example = terminal_or_recoverable gap_detected

sequence-end_example :
    ((end (watermark_new 4 (text "a")) hops).sequence ≡ 4 + length hops)
    × ((end (watermark_new 4 (text "a")) hops).sequence < 2 ^ 64)
sequence-end_example = sequence-end (watermark_new 4 (text "a")) hops (omega arith) chained
