-- ===== src/Replication/FactCreate/Laws.antt =====
-- src/replication/fact_create.rs: what a well-formed batch is, and what its signature covers.
pub mod Coverage
pub mod Signing
use mnemes.Prelude.{
  ℕ, zero, suc, ◌<◌, ◌≤◌, ◌≡◌, refl, sym, ◌∙◌, ap, ◌↔◌, List, [], ◌∷◌, arith, length, is_empty, ltb,
  ok, ◌>>◌, All, then_iff, reject_if, reject_if_iff, reject_ne_iff, nat_beq, nat_eq,
}
use mnemes.Prelude.Text.{Text}
use mnemes.Prelude.Int.{ℤ, pos, negsuc, int_eq, ltb_ℤ}
use mnemes.Replication.Roles.{device_writer, role_eq}
use mnemes.Replication.Error.{ReplicationError}
use mnemes.Replication.Canonical.{Check}
use mnemes.Replication.Transport.{max_entries, check_text}
use mnemes.Replication.Transport.Laws.{IsBatchText, check_text_iff, positive_iff}
use mnemes.Replication.FactCreate.{
  FactCreateTransportEntryV1, SignedFactCreateBatchV1, text_fields, check_sequences,
  validate_structure,
}

-- One record, at the sequence that the batch declares, in a batch of bounded and trimmed texts.
pub record IsWellFormed (b : SignedFactCreateBatchV1) : Type 0 where
  pub version : b.protocol_version ≡ 1
  pub role : b.signer_role ≡ device_writer
  pub batch_id : IsBatchText 128 b.batch_id
  pub home_device_id : IsBatchText 128 b.home_device_id
  pub store_id : IsBatchText 128 b.store_id
  pub signer_principal_id : IsBatchText 128 b.signer_principal_id
  pub fencing_token : IsBatchText 256 b.fencing_token
  pub epoch : 0 < b.stream_epoch
  pub start : (n : ℕ) × (b.start_sequence ≡ pos (suc n))
  pub entry : FactCreateTransportEntryV1
  pub only : b.entries ≡ entry ∷ []
  pub placed : entry.sequence ≡ b.start_sequence

epoch_iff : (n : ℕ) (x : ReplicationError) → (reject_if (nat_beq n 0) x ≡ ok tt) ↔ (0 < n)
epoch_iff n x = ground arith

-- The tests on the entries: not empty, at most one, and in sequence.
abbrev entry_tests :
    ℤ → List FactCreateTransportEntryV1 → ReplicationError → ReplicationError → Check
entry_tests start es x y =
    reject_if (is_empty es) x
    >> (reject_if (ltb max_entries (length es)) y >> check_sequences start 0 es)

head_sequence :
    {e f : FactCreateTransportEntryV1}
    → ◌≡◌ {A = List FactCreateTransportEntryV1} (e ∷ []) (f ∷ [])
    → e.sequence ≡ f.sequence
head_sequence h = ap (λ l. first l) h
  where
    first : List FactCreateTransportEntryV1 → ℤ
    first [] = pos 0
    first (x ∷ xs) = x.sequence

entry_tests_iff :
    (start : ℤ) (es : List FactCreateTransportEntryV1) (x y : ReplicationError)
    → (entry_tests start es x y ≡ ok tt)
      ↔ ((e : FactCreateTransportEntryV1) × (es ≡ e ∷ []) × (e.sequence ≡ start))
unfolding check_sequences
entry_tests_iff start [] x y = (λ h. cc, λ (e, same, _). cc)
entry_tests_iff start (e ∷ []) x y =
    let last =
      then_iff {Q = Unit {0}} _ (ok tt) (reject_ne_iff e.sequence start _) (λ h. tt, λ h. refl) in
    (λ h. (e, refl, (last.0 h).0), λ (e', same, placed). last.1 (head_sequence same ∙ placed, tt))
entry_tests_iff start (e ∷ f ∷ es) x y = (λ h. ground arith, λ (e', same, _). cc)

-- The structure test accepts exactly the batches of version 1, signed as device writer, with trimmed
-- and bounded texts, a positive epoch and start, and one entry, at the start.
pub validate_structure_iff :
    (b : SignedFactCreateBatchV1) → (validate_structure b ≡ ok tt) ↔ IsWellFormed b
unfolding validate_structure
validate_structure_iff b =
    let steps = then_iff _ _ (reject_ne_iff b.protocol_version 1 _) (
      then_iff _ _ (reject_ne_iff b.signer_role device_writer _) (
        then_iff _ _ (check_text_iff "fact-create" (text_fields b)) (
          then_iff _ _ (epoch_iff b.stream_epoch _) (
            then_iff _ _ (positive_iff b.start_sequence _)
              (entry_tests_iff b.start_sequence b.entries _ _))))) in
    (
      λ h.
          let (version, (role, (texts, (epoch, (start, (e, only, placed)))))) = steps.0 h in
          let (t0, (t1, (t2, (t3, (t4, _))))) = texts in
          record {
            version = version;
            role = role;
            batch_id = t0;
            home_device_id = t1;
            store_id = t2;
            signer_principal_id = t3;
            fencing_token = t4;
            epoch = epoch;
            start = start;
            entry = e;
            only = only;
            placed = placed;
          },
      λ w. steps.1 (
        w.version,
        (
          w.role,
          (
            (
              w.batch_id,
              (w.home_device_id, (w.store_id, (w.signer_principal_id, (w.fencing_token, tt)))),
            ),
            (w.epoch, (w.start, (w.entry, w.only, w.placed))),
          ),
        ),
      ),
    )
