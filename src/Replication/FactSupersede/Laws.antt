-- ===== src/Replication/FactSupersede/Laws.antt =====
-- src/replication/fact_supersede.rs: what a well-formed request is, and what its owner's envelope is
-- bound to.
pub mod Passing
use mnemes.Prelude.{
  ℕ, suc, ◌<◌, ◌≡◌, refl, sym, ap, ◌↔◌, ◌∙◌, false, ◌||◌, List, [], ◌∷◌, arith, ok, ◌>>◌, reject_if,
  nat_beq, nat_eq, list_eq, ◌!=◌, ◌==◌, then_iff, or_iff, ne_iff, reject_ne_iff, reject_unless_iff,
  length,
}
use mnemes.Prelude.Int.{ℤ, pos, int_eq}
use mnemes.Replication.Roles.{device_writer, role_eq}
use mnemes.Replication.Error.{ReplicationError, pre_collision_validation, words}
use mnemes.Replication.Transport.{FactSupersedeOwner, check_text}
use mnemes.Replication.Transport.Laws.{IsBatchText, check_text_iff, positive_iff}
use mnemes.Replication.FactSupersede.{
  FactSupersedeTransportEntryV1, SignedFactSupersedeBatchV1, check_binding, text_fields,
  protocol_family, validate_structure,
}

-- One entry, whose envelope has the identity that the request declares.
pub record BindsOwner (o : FactSupersedeOwner) (b : SignedFactSupersedeBatchV1 o) : Type 0 where
  pub entry : FactSupersedeTransportEntryV1 o
  pub only : b.entries ≡ entry ∷ []
  pub device : o.home_device_id entry.owner_envelope ≡ b.home_device_id
  pub store : o.store_id entry.owner_envelope ≡ b.store_id
  pub epoch : o.stream_epoch entry.owner_envelope ≡ b.owner_stream_epoch
  pub sequence : o.sequence entry.owner_envelope ≡ b.start_sequence

-- A request of the profile, with bounded and trimmed texts and positive generations.
pub record IsRequest (o : FactSupersedeOwner) (b : SignedFactSupersedeBatchV1 o) : Type 0 where
  pub family : b.protocol_family ≡ protocol_family
  pub version : b.protocol_version ≡ 1
  pub role : b.signer_role ≡ device_writer
  pub batch_id : IsBatchText 128 b.batch_id
  pub home_device_id : IsBatchText 128 b.home_device_id
  pub store_id : IsBatchText 128 b.store_id
  pub signer_principal_id : IsBatchText 128 b.signer_principal_id
  pub fencing_token : IsBatchText 256 b.fencing_token
  pub store_epoch : 0 < b.store_epoch
  pub writer_epoch : 0 < b.writer_epoch
  pub owner_stream_epoch : 0 < b.owner_stream_epoch
  pub start : (n : ℕ) × (b.start_sequence ≡ pos (suc n))
  pub binds : BindsOwner o b

zero_iff : (n : ℕ) → (nat_beq n 0 ≡ false) ↔ (0 < n)
zero_iff n = ground arith

epochs_iff :
    (a b c : ℕ) (x : ReplicationError)
    → (reject_if (a == 0 || b == 0 || c == 0) x ≡ ok tt) ↔ (((0 < a) × (0 < b)) × (0 < c))
epochs_iff a b c x =
    reject_unless_iff _ x (or_iff _ _ (or_iff _ _ (zero_iff a) (zero_iff b)) (zero_iff c))

module _ (o : FactSupersedeOwner) where
  head_envelope :
      {e f : FactSupersedeTransportEntryV1 o}
      → ◌≡◌ {A = List (FactSupersedeTransportEntryV1 o)} (e ∷ []) (f ∷ [])
      → e ≡ f
  head_envelope {e} h = ap (λ l. first l) h
    where
      first : List (FactSupersedeTransportEntryV1 o) → FactSupersedeTransportEntryV1 o
      first [] = e
      first (x ∷ xs) = x

  binding_iff :
      (b : SignedFactSupersedeBatchV1 o) (es : List (FactSupersedeTransportEntryV1 o))
      → b.entries ≡ es
      → (check_binding o b es ≡ ok tt) ↔ BindsOwner o b
  unfolding check_binding
  binding_iff b [] same = (λ h. cc, λ w. cc (w.only))
  binding_iff b (x ∷ []) same =
      let e = x.owner_envelope in
      let tests =
        reject_unless_iff _
          (pre_collision_validation
            (words "fact-supersede transport does not exactly bind owner envelope identity"))
          (or_iff _ _
            (or_iff _ _
              (or_iff _ _ (ne_iff (o.home_device_id e) b.home_device_id)
                (ne_iff (o.store_id e) b.store_id))
              (ne_iff (o.stream_epoch e) b.owner_stream_epoch))
            (ne_iff (o.sequence e) b.start_sequence)) in
      (
        λ h.
            let (((device, store), epoch), sequence) = tests.0 h in
            record {
              entry = x;
              only = same;
              device = device;
              store = store;
              epoch = epoch;
              sequence = sequence;
            },
        λ w.
            let one : w.entry ≡ x = head_envelope (sym w.only ∙ same) in
            tests.1 (
              (
                (
                  ap (λ f. o.home_device_id f.owner_envelope) (sym one) ∙ w.device,
                  ap (λ f. o.store_id f.owner_envelope) (sym one) ∙ w.store,
                ),
                ap (λ f. o.stream_epoch f.owner_envelope) (sym one) ∙ w.epoch,
              ),
              ap (λ f. o.sequence f.owner_envelope) (sym one) ∙ w.sequence,
            ),
      )
  binding_iff b (x ∷ y ∷ es) same = (λ h. cc, λ w. cc (w.only))

  -- The structure test accepts exactly the requests of the profile's family and version, signed as
  -- device writer, with trimmed and bounded texts, positive epochs and start, and one entry, whose
  -- envelope has the device, store, epoch and sequence that the request declares.
  pub structure_iff :
      (b : SignedFactSupersedeBatchV1 o) → (validate_structure o b ≡ ok tt) ↔ IsRequest o b
  unfolding validate_structure
  structure_iff b =
      let steps = then_iff _ _ (reject_ne_iff b.protocol_family protocol_family _) (
        then_iff _ _ (reject_ne_iff b.protocol_version 1 _) (
          then_iff _ _ (reject_ne_iff b.signer_role device_writer _) (
            then_iff _ _ (check_text_iff "fact-supersede" (text_fields o b)) (
              then_iff _ _ (epochs_iff b.store_epoch b.writer_epoch b.owner_stream_epoch _) (
                then_iff _ _ (positive_iff b.start_sequence _)
                  (binding_iff b b.entries refl)))))) in
      (
        λ h.
            let (family, (version, (role, (texts, (epochs, (start, binds)))))) = steps.0 h in
            let (t0, (t1, (t2, (t3, (t4, _))))) = texts in
            let ((e0, e1), e2) = epochs in
            record {
              family = family;
              version = version;
              role = role;
              batch_id = t0;
              home_device_id = t1;
              store_id = t2;
              signer_principal_id = t3;
              fencing_token = t4;
              store_epoch = e0;
              writer_epoch = e1;
              owner_stream_epoch = e2;
              start = start;
              binds = binds;
            },
        λ w. steps.1 (
          w.family,
          (
            w.version,
            (
              w.role,
              (
                (
                  w.batch_id,
                  (w.home_device_id, (w.store_id, (w.signer_principal_id, (w.fencing_token, tt)))),
                ),
                (((w.store_epoch, w.writer_epoch), w.owner_stream_epoch), (w.start, w.binds)),
              ),
            ),
          ),
        ),
      )
