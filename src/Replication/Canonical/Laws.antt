-- ===== src/Replication/Canonical/Laws.antt =====
-- src/replication/canonical.rs: what a valid envelope is, and that validation accepts exactly these.
use mnemes.Prelude.{ℕ, ◌≤◌, ◌<◌, ◌≡◌, ◌↔◌, ok, length, All, then_iff}
use mnemes.Prelude.Text.{Text, HasInk, as_bytes}
use mnemes.Replication.Roles.Laws.{MaySign}
use mnemes.Replication.Envelope.{MemoryMutationEnvelopeV1}
use mnemes.Replication.Crypto.{Crypto}
use mnemes.Replication.Canonical.{
  required_fields, byte_checks, check_version, check_codes, check_required, check_payload_present,
  check_controls, check_lengths, check_payload_limit, check_interval, check_payload, check_sizes,
  check_matrix, check_signature, validate_envelope,
}
use mnemes.Replication.Canonical.Checks.{
  IsPrintable, IsSigned, check_version_iff, check_codes-passes, check_required_iff,
  check_payload_present_iff, check_controls_iff, check_lengths_iff, check_payload_limit_iff,
  check_interval_iff, check_payload_iff, check_sizes_iff, check_matrix_iff, check_signature_iff,
}

-- A text field: not blank, no control byte, and at most `max` bytes.
pub record IsField (max : ℕ) (t : Text) : Type 0 where
  pub ink : HasInk t
  pub printable : All IsPrintable (as_bytes t)
  pub short : length (as_bytes t) ≤ max

pub record IsValid (c : Crypto) (e : MemoryMutationEnvelopeV1) : Type 0 where
  pub version : e.protocol_version ≡ 1
  pub operation_id : IsField 128 e.operation_id
  pub idempotency_key : IsField 128 e.idempotency_key
  pub home_device_id : IsField 64 e.home_device_id
  pub store_id : IsField 64 e.store_id
  pub actor_id : IsField 64 e.actor_id
  pub namespace : IsField 256 e.namespace
  pub fencing_token : IsField 128 e.fencing_token
  pub operation_kind : IsField 64 e.operation_kind
  pub signer_principal_id : IsField 128 e.signer_principal_id
  pub payload : (0 < length e.canonical_payload) × (length e.canonical_payload ≤ 1_048_576)
  pub interval : e.valid_from ≤ e.valid_to
  pub declared :
      (e.payload_length ≡ length e.canonical_payload)
      × (c.sha256 e.canonical_payload ≡ e.payload_digest)
  pub sizes :
      (length e.authorization_snapshot_id ≡ 16)
      × (length e.signer_public_key ≡ 32)
      × (length e.signature ≡ 64)
  pub permitted : MaySign e.signer_role e.artifact_kind
  pub signed : IsSigned c e

module _ (c : Crypto) (e : MemoryMutationEnvelopeV1) where
  steps_iff : (validate_envelope c e ≡ ok tt) ↔ (
      (e.protocol_version ≡ 1)
      × (Unit {0}
          × (All (λ f. HasInk f.1) (required_fields e)
              × ((0 < length e.canonical_payload)
                  × (All (λ f. All IsPrintable (as_bytes f.1)) (required_fields e)
                      × (All (λ f. length (as_bytes f.1) ≤ f.2) (byte_checks e)
                          × ((length e.canonical_payload ≤ 1_048_576)
                              × ((e.valid_from ≤ e.valid_to)
                                  × (((e.payload_length ≡ length e.canonical_payload)
                                        × (c.sha256 e.canonical_payload ≡ e.payload_digest))
                                      × (((length e.authorization_snapshot_id ≡ 16)
                                            × (length e.signer_public_key ≡ 32)
                                            × (length e.signature ≡ 64))
                                          × (MaySign e.signer_role e.artifact_kind
                                              × IsSigned c e)))))))))))
  unfolding validate_envelope
  steps_iff = then_iff (check_version e) _ (check_version_iff e) (
      then_iff (check_codes e) _ (λ h. tt, λ h. check_codes-passes e)
        (then_iff (check_required (required_fields e)) _ (check_required_iff (required_fields e)) (
          then_iff (check_payload_present e) _ (check_payload_present_iff e) (
            then_iff (check_controls (required_fields e)) _ (check_controls_iff (required_fields e))
              (then_iff (check_lengths (byte_checks e)) _ (check_lengths_iff (byte_checks e)) (
                then_iff (check_payload_limit e) _ (check_payload_limit_iff e) (
                  then_iff (check_interval e) _ (check_interval_iff e) (
                    then_iff (check_payload c e) _ (check_payload_iff c e) (
                      then_iff (check_sizes e) _ (check_sizes_iff e) (
                        then_iff (check_matrix e) (check_signature c e) (check_matrix_iff e)
                          (check_signature_iff c e)))))))))))

  validate_envelope-IsValid : validate_envelope c e ≡ ok tt → IsValid c e
  validate_envelope-IsValid h =
      let (version, (_, (i, (present, (p, (s, (limit, (interval, (declared, (sizes, rest)))))))))) =
        steps_iff.0 h in
      let (i0, (i1, (i2, (i3, (i4, (i5, (i6, (i7, (i8, _))))))))) = i in
      let (p0, (p1, (p2, (p3, (p4, (p5, (p6, (p7, (p8, _))))))))) = p in
      let (s0, (s1, (s2, (s3, (s4, (s5, (s6, (s7, (s8, _))))))))) = s in
      record {
        version = version;
        operation_id = record { ink = i0; printable = p0; short = s0 };
        idempotency_key = record { ink = i1; printable = p1; short = s1 };
        home_device_id = record { ink = i2; printable = p2; short = s2 };
        store_id = record { ink = i3; printable = p3; short = s3 };
        actor_id = record { ink = i4; printable = p4; short = s4 };
        namespace = record { ink = i5; printable = p5; short = s5 };
        fencing_token = record { ink = i6; printable = p6; short = s6 };
        operation_kind = record { ink = i7; printable = p7; short = s7 };
        signer_principal_id = record { ink = i8; printable = p8; short = s8 };
        payload = (present, limit);
        interval = interval;
        declared = declared;
        sizes = sizes;
        permitted = rest.0;
        signed = rest.1;
      }

  validate_envelope_complete : IsValid c e → validate_envelope c e ≡ ok tt
  validate_envelope_complete v = steps_iff.1 (
    v.version,
    (
      tt,
      (
        (
          v.operation_id.ink,
          (
            v.idempotency_key.ink,
            (
              v.home_device_id.ink,
              (
                v.store_id.ink,
                (
                  v.actor_id.ink,
                  (
                    v.namespace.ink,
                    (v.fencing_token.ink, (v.operation_kind.ink, (v.signer_principal_id.ink, tt))),
                  ),
                ),
              ),
            ),
          ),
        ),
        (
          v.payload.0,
          (
            (
              v.operation_id.printable,
              (
                v.idempotency_key.printable,
                (
                  v.home_device_id.printable,
                  (
                    v.store_id.printable,
                    (
                      v.actor_id.printable,
                      (
                        v.namespace.printable,
                        (
                          v.fencing_token.printable,
                          (v.operation_kind.printable, (v.signer_principal_id.printable, tt)),
                        ),
                      ),
                    ),
                  ),
                ),
              ),
            ),
            (
              (
                v.operation_id.short,
                (
                  v.idempotency_key.short,
                  (
                    v.home_device_id.short,
                    (
                      v.store_id.short,
                      (
                        v.actor_id.short,
                        (
                          v.namespace.short,
                          (
                            v.fencing_token.short,
                            (v.operation_kind.short, (v.signer_principal_id.short, tt)),
                          ),
                        ),
                      ),
                    ),
                  ),
                ),
              ),
              (v.payload.1, (v.interval, (v.declared, (v.sizes, (v.permitted, v.signed))))),
            ),
          ),
        ),
      ),
    ),
  )

  -- Validation succeeds exactly on the valid envelopes: version 1, nine text fields in their bounds,
  -- a payload of the declared length and digest, a temporal interval, key and signature of the right
  -- sizes, a role that may sign the kind, and a signature on the preimage by the embedded key.
  pub validate_envelope_iff : (validate_envelope c e ≡ ok tt) ↔ IsValid c e
  validate_envelope_iff = (validate_envelope-IsValid, validate_envelope_complete)
