-- ===== src/Replication/Envelope/Laws.antt =====
-- src/replication/types.rs: a signing preimage determines every field that it covers.
use Prim.Native.Nat.{◌^◌}
use mnemes.Prelude.{ℕ, ◌<◌, ◌≡◌, refl, sym, ◌∙◌, [], ◌∷◌, arith, length, ok}
use mnemes.Prelude.Bytes.{Bytes, to_be_bytes, length-to_be_bytes, to_be_bytes_injective}
use mnemes.Prelude.Text.{as_bytes_injective}
use mnemes.Replication.Roles.{role_u8_injective, artifact_to_u8_injective}
use mnemes.Replication.Parts.Laws.{SameShape, SameParts, encode_parts_injective}
use mnemes.Replication.Envelope.{
  MemoryMutationEnvelopeV1, IsTyped, envelope_parts, signature_domain_tag, signing_preimage,
}

-- Equal in every field that the signature covers: all but the payload itself, the embedded key and
-- the signature.
pub record SameSigned (a b : MemoryMutationEnvelopeV1) : Type 0 where
  pub versioning :
      (a.protocol_version ≡ b.protocol_version)
      × (a.artifact_kind ≡ b.artifact_kind)
      × (a.operation_schema_version ≡ b.operation_schema_version)
      × (a.semantic_schema_generation ≡ b.semantic_schema_generation)
  pub identity :
      (a.operation_id ≡ b.operation_id)
      × (a.idempotency_key ≡ b.idempotency_key)
      × (a.home_device_id ≡ b.home_device_id)
      × (a.store_id ≡ b.store_id)
      × (a.actor_id ≡ b.actor_id)
  pub lineage :
      (a.store_epoch ≡ b.store_epoch)
      × (a.writer_epoch ≡ b.writer_epoch)
      × (a.sequence ≡ b.sequence)
      × (a.previous_envelope_digest ≡ b.previous_envelope_digest)
      × (a.fencing_token ≡ b.fencing_token)
  pub scope : (a.namespace ≡ b.namespace) × (a.operation_kind ≡ b.operation_kind)
  pub payload : (a.payload_digest ≡ b.payload_digest) × (a.payload_length ≡ b.payload_length)
  pub governance :
      (a.requested_effect_digest ≡ b.requested_effect_digest)
      × (a.policy_version ≡ b.policy_version)
      × (a.authorization_snapshot_id ≡ b.authorization_snapshot_id)
      × (a.authorization_snapshot_digest ≡ b.authorization_snapshot_digest)
      × (a.authority_receipt_digest ≡ b.authority_receipt_digest)
  pub signer :
      (a.signer_principal_id ≡ b.signer_principal_id)
      × (a.signer_role ≡ b.signer_role)
      × (a.signer_key_version ≡ b.signer_key_version)
  pub temporal :
      (a.observed_at ≡ b.observed_at) × (a.valid_from ≡ b.valid_from) × (a.valid_to ≡ b.valid_to)

same_width : (w a b : ℕ) → length (to_be_bytes w a) ≡ length (to_be_bytes w b)
same_width w a b = length-to_be_bytes w a ∙ sym (length-to_be_bytes w b)

u16 : (a b : ℕ) → a < 2 ^ 16 → b < 2 ^ 16 → to_be_bytes 2 a ≡ to_be_bytes 2 b → a ≡ b
u16 a b ha hb h = to_be_bytes_injective 2 a b (omega arith) (omega arith) h

u64 : (a b : ℕ) → a < 2 ^ 64 → b < 2 ^ 64 → to_be_bytes 8 a ≡ to_be_bytes 8 b → a ≡ b
u64 a b ha hb h = to_be_bytes_injective 8 a b (omega arith) (omega arith) h

one_byte : {a b : ℕ} → ◌≡◌ {A = Bytes} (a ∷ []) (b ∷ []) → a ≡ b
one_byte h = cc

pub SameShape-envelope_parts :
    (a b : MemoryMutationEnvelopeV1)
    → IsTyped a
    → IsTyped b
    → SameShape (envelope_parts a) (envelope_parts b)
SameShape-envelope_parts a b ta tb = (
  same_width 2 _ _,
  (
    refl,
    (
      same_width 2 _ _,
      (
        same_width 2 _ _,
        (
          same_width 8 _ _,
          (
            same_width 8 _ _,
            (
              same_width 8 _ _,
              (
                ta.digests.0 ∙ sym tb.digests.0,
                (
                  ta.digests.1 ∙ sym tb.digests.1,
                  (
                    same_width 8 _ _,
                    (
                      ta.digests.2 ∙ sym tb.digests.2,
                      (
                        same_width 8 _ _,
                        (
                          ta.digests.3 ∙ sym tb.digests.3,
                          (
                            ta.digests.4 ∙ sym tb.digests.4,
                            (
                              refl,
                              (
                                same_width 8 _ _,
                                (same_width 8 _ _, (same_width 8 _ _, (same_width 8 _ _, tt))),
                              ),
                            ),
                          ),
                        ),
                      ),
                    ),
                  ),
                ),
              ),
            ),
          ),
        ),
      ),
    ),
  ),
)

pub SameParts-SameSigned :
    (a b : MemoryMutationEnvelopeV1)
    → IsTyped a
    → IsTyped b
    → SameParts (envelope_parts a) (envelope_parts b)
    → SameSigned a b
SameParts-SameSigned a b ta tb
      (
        protocol_version,
        (
          artifact_kind,
          (
            operation_schema_version,
            (
              semantic_schema_generation,
              (
                operation_id,
                (
                  idempotency_key,
                  (
                    home_device_id,
                    (
                      store_id,
                      (
                        actor_id,
                        (
                          store_epoch,
                          (
                            writer_epoch,
                            (
                              sequence,
                              (
                                previous_envelope_digest,
                                (
                                  fencing_token,
                                  (
                                    namespace,
                                    (
                                      operation_kind,
                                      (
                                        payload_digest,
                                        (
                                          payload_length,
                                          (
                                            requested_effect_digest,
                                            (
                                              policy_version,
                                              (
                                                authorization_snapshot_id,
                                                (
                                                  authorization_snapshot_digest,
                                                  (
                                                    authority_receipt_digest,
                                                    (
                                                      signer_principal_id,
                                                      (
                                                        signer_role,
                                                        (
                                                          signer_key_version,
                                                          (
                                                            observed_at,
                                                            (valid_from, (valid_to, _)),
                                                          ),
                                                        ),
                                                      ),
                                                    ),
                                                  ),
                                                ),
                                              ),
                                            ),
                                          ),
                                        ),
                                      ),
                                    ),
                                  ),
                                ),
                              ),
                            ),
                          ),
                        ),
                      ),
                    ),
                  ),
                ),
              ),
            ),
          ),
        ),
      ) =
    record {
      versioning = (
        u16 _ _ ta.versions.0 tb.versions.0 protocol_version,
        artifact_to_u8_injective _ _ (one_byte artifact_kind),
        u16 _ _ ta.versions.1 tb.versions.1 operation_schema_version,
        u16 _ _ ta.versions.2 tb.versions.2 semantic_schema_generation,
      );
      identity = (
        as_bytes_injective _ _ ta.texts.0 tb.texts.0 operation_id,
        as_bytes_injective _ _ ta.texts.1 tb.texts.1 idempotency_key,
        as_bytes_injective _ _ ta.texts.2 tb.texts.2 home_device_id,
        as_bytes_injective _ _ ta.texts.3 tb.texts.3 store_id,
        as_bytes_injective _ _ ta.texts.4 tb.texts.4 actor_id,
      );
      lineage = (
        u64 _ _ ta.numbers.0 tb.numbers.0 store_epoch,
        u64 _ _ ta.numbers.1 tb.numbers.1 writer_epoch,
        u64 _ _ ta.numbers.2 tb.numbers.2 sequence,
        previous_envelope_digest,
        as_bytes_injective _ _ ta.texts.5 tb.texts.5 fencing_token,
      );
      scope = (
        as_bytes_injective _ _ ta.texts.6 tb.texts.6 namespace,
        as_bytes_injective _ _ ta.texts.7 tb.texts.7 operation_kind,
      );
      payload = (payload_digest, u64 _ _ ta.numbers.3 tb.numbers.3 payload_length);
      governance = (
        requested_effect_digest,
        u64 _ _ ta.numbers.4 tb.numbers.4 policy_version,
        authorization_snapshot_id,
        authorization_snapshot_digest,
        authority_receipt_digest,
      );
      signer = (
        as_bytes_injective _ _ ta.texts.8 tb.texts.8 signer_principal_id,
        role_u8_injective _ _ (one_byte signer_role),
        u64 _ _ ta.numbers.5 tb.numbers.5 signer_key_version,
      );
      temporal = (
        u64 _ _ ta.numbers.6 tb.numbers.6 observed_at,
        u64 _ _ ta.numbers.7 tb.numbers.7 valid_from,
        u64 _ _ ta.numbers.8 tb.numbers.8 valid_to,
      );
    }

-- Two envelopes with one signing preimage agree in every signed field: a signature on the preimage
-- is a signature on these fields and no others.
pub signing_preimage_injective :
    (a b : MemoryMutationEnvelopeV1) {p : Bytes}
    → IsTyped a
    → IsTyped b
    → signing_preimage a ≡ ok p
    → signing_preimage b ≡ ok p
    → SameSigned a b
unfolding signing_preimage
signing_preimage_injective a b ta tb ha hb = SameParts-SameSigned a b ta tb (
    encode_parts_injective signature_domain_tag (envelope_parts a) (envelope_parts b)
      (SameShape-envelope_parts a b ta tb) ha hb)
