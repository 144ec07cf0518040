-- ===== src/Replication/Envelope/Identity.antt =====
-- src/replication/types.rs: the identities that make two envelopes one.
use mnemes.Prelude.{◌≡◌, ◌↔◌, ◌⊎◌, true, arith, list_beq_iff}
use mnemes.Replication.Envelope.{MemoryMutationEnvelopeV1, same_identity}

-- One operation of a store, one idempotency key of a device, or one place in a stream.
abbrev pub SharesIdentity : MemoryMutationEnvelopeV1 → MemoryMutationEnvelopeV1 → Type 0
SharesIdentity a b =
    ((a.operation_id ≡ b.operation_id)
      × (a.home_device_id ≡ b.home_device_id)
      × (a.store_id ≡ b.store_id))
    ⊎ (((a.home_device_id ≡ b.home_device_id) × (a.idempotency_key ≡ b.idempotency_key))
        ⊎ ((a.home_device_id ≡ b.home_device_id)
            × (a.store_id ≡ b.store_id)
            × (a.store_epoch ≡ b.store_epoch)
            × (a.writer_epoch ≡ b.writer_epoch)
            × (a.sequence ≡ b.sequence)))

-- Two envelopes pass the identity test exactly when they share one of the three identities.
pub same_identity_iff :
    (a b : MemoryMutationEnvelopeV1) → (same_identity a b ≡ true) ↔ SharesIdentity a b
unfolding same_identity
same_identity_iff a b = ground (
  arith,
  list_beq_iff a.operation_id b.operation_id,
  list_beq_iff a.home_device_id b.home_device_id,
  list_beq_iff a.store_id b.store_id,
  list_beq_iff a.idempotency_key b.idempotency_key,
)
