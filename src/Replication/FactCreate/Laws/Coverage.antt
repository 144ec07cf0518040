-- ===== src/Replication/FactCreate/Laws/Coverage.antt =====
-- src/replication/fact_create.rs: what a signature on a batch covers.
use Prim.Native.Nat.{◌^◌}
use mnemes.Prelude.{ℕ, ◌<◌, ◌≡◌, refl, sym, ◌∙◌, ap, [], ◌∷◌, arith, length, ok, All}
use mathlib.Core.Path.{subst}
use mnemes.Prelude.Bytes.{Bytes, to_be_bytes, length-to_be_bytes, to_be_bytes_injective}
use mnemes.Prelude.Text.{IsText, as_bytes_injective}
use mnemes.Prelude.Int.{ℤ, IsI64, i64_bits, i64_bits_injective, i64_bits-lt}
use mnemes.Replication.Parts.{encode_parts}
use mnemes.Replication.Parts.Laws.{SameShape, SameParts, encode_parts_injective}
use mnemes.Replication.FactCreate.{
  FactCreateTransportEntryV1, SignedFactCreateBatchV1, batch_parts, signature_domain,
  signing_preimage, validate_structure,
}
use mnemes.Replication.FactCreate.Laws.{IsWellFormed, validate_structure_iff}

-- What Rust's types say of a batch and of its entries.
pub record IsTypedEntry (e : FactCreateTransportEntryV1) : Type 0 where
  pub sequence : IsI64 e.sequence
  pub digests :
      (length e.payload_digest ≡ 32)
      × (length e.predecessor_digest ≡ 32)
      × (length e.journal_envelope_digest ≡ 32)

pub record IsTypedBatch (b : SignedFactCreateBatchV1) : Type 0 where
  pub texts :
      IsText b.batch_id
      × IsText b.home_device_id
      × IsText b.store_id
      × IsText b.signer_principal_id
      × IsText b.fencing_token
  pub numbers :
      (b.stream_epoch < 2 ^ 64) × (b.signer_key_version < 2 ^ 64) × (b.observed_at < 2 ^ 64)
  pub start : IsI64 b.start_sequence
  pub entries : All IsTypedEntry b.entries

-- Equal in every field that the signature covers: all but the key and the signature.
pub record SameBatch (a b : SignedFactCreateBatchV1) : Type 0 where
  pub identity :
      (a.batch_id ≡ b.batch_id)
      × (a.home_device_id ≡ b.home_device_id)
      × (a.store_id ≡ b.store_id)
      × (a.stream_epoch ≡ b.stream_epoch)
      × (a.start_sequence ≡ b.start_sequence)
  pub entries : a.entries ≡ b.entries
  pub signer :
      (a.signer_principal_id ≡ b.signer_principal_id)
      × (a.signer_role ≡ b.signer_role)
      × (a.signer_key_version ≡ b.signer_key_version)
      × (a.observed_at ≡ b.observed_at)
      × (a.fencing_token ≡ b.fencing_token)

same_width : (w a b : ℕ) → length (to_be_bytes w a) ≡ length (to_be_bytes w b)
same_width w a b = length-to_be_bytes w a ∙ sym (length-to_be_bytes w b)

u64 : (a b : ℕ) → a < 2 ^ 64 → b < 2 ^ 64 → to_be_bytes 8 a ≡ to_be_bytes 8 b → a ≡ b
u64 a b ha hb h = to_be_bytes_injective 8 a b (omega arith) (omega arith) h

i64 :
    (a b : ℤ) → IsI64 a → IsI64 b → to_be_bytes 8 (i64_bits a) ≡ to_be_bytes 8 (i64_bits b) → a ≡ b
i64 a b ha hb h =
    i64_bits_injective a b ha hb
      (to_be_bytes_injective 8 (i64_bits a) (i64_bits b) (i64_bits-lt a ha) (i64_bits-lt b hb) h)

same_entry :
    (e f : FactCreateTransportEntryV1)
    → e.sequence ≡ f.sequence
    → e.payload ≡ f.payload
    → e.payload_digest ≡ f.payload_digest
    → e.predecessor_digest ≡ f.predecessor_digest
    → e.journal_envelope_digest ≡ f.journal_envelope_digest
    → e ≡ f
same_entry e f a b c d g = ground arith

-- The preimage of a batch with one given entry.
abbrev pub with_entry :
    SignedFactCreateBatchV1 → FactCreateTransportEntryV1 → SignedFactCreateBatchV1
with_entry b e = record b { entries = e ∷ [] }

shapes :
    (a b : SignedFactCreateBatchV1) (e f : FactCreateTransportEntryV1)
    → IsTypedEntry e
    → IsTypedEntry f
    → SameShape (batch_parts (with_entry a e)) (batch_parts (with_entry b f))
shapes a b e f te tf = (
  same_width 2 _ _,
  (
    same_width 8 _ _,
    (
      same_width 8 _ _,
      (
        same_width 4 _ _,
        (
          same_width 8 _ _,
          (
            te.digests.0 ∙ sym tf.digests.0,
            (
              te.digests.1 ∙ sym tf.digests.1,
              (te.digests.2 ∙ sym tf.digests.2, (refl, (same_width 8 _ _, (same_width 8 _ _, tt)))),
            ),
          ),
        ),
      ),
    ),
  ),
)

covered :
    (a b : SignedFactCreateBatchV1) (e f : FactCreateTransportEntryV1)
    → IsTypedBatch a
    → IsTypedBatch b
    → IsTypedEntry e
    → IsTypedEntry f
    → a.entries ≡ e ∷ []
    → b.entries ≡ f ∷ []
    → IsWellFormed a
    → IsWellFormed b
    → SameParts (batch_parts (with_entry a e)) (batch_parts (with_entry b f))
    → SameBatch a b
covered a b e f ta tb te tf only_a only_b wa wb
      (
        _,
        (
          batch,
          (
            device,
            (
              store,
              (
                epoch,
                (
                  start,
                  (
                    _,
                    (
                      seq,
                      (
                        payload,
                        (pd, (pr, (je, (principal, (_, (version, (observed, (token, _)))))))),
                      ),
                    ),
                  ),
                ),
              ),
            ),
          ),
        ),
      ) =
    record {
      identity = (
        as_bytes_injective _ _ ta.texts.0 tb.texts.0 batch,
        as_bytes_injective _ _ ta.texts.1 tb.texts.1 device,
        as_bytes_injective _ _ ta.texts.2 tb.texts.2 store,
        u64 _ _ ta.numbers.0 tb.numbers.0 epoch,
        i64 _ _ ta.start tb.start start,
      );
      entries =
          only_a
          ∙ ap (λ x. x ∷ []) (same_entry e f (i64 _ _ te.sequence tf.sequence seq) payload pd pr je)
          ∙ sym only_b;
      signer = (
        as_bytes_injective _ _ ta.texts.3 tb.texts.3 principal,
        wa.role ∙ sym wb.role,
        u64 _ _ ta.numbers.1 tb.numbers.1 version,
        u64 _ _ ta.numbers.2 tb.numbers.2 observed,
        as_bytes_injective _ _ ta.texts.4 tb.texts.4 token,
      );
    }

entry_IsTyped :
    (b : SignedFactCreateBatchV1) (e : FactCreateTransportEntryV1)
    → IsTypedBatch b
    → b.entries ≡ e ∷ []
    → IsTypedEntry e
entry_IsTyped b e t only = (subst (All IsTypedEntry) only t.entries).0

pub fixed :
    (b : SignedFactCreateBatchV1) (e : FactCreateTransportEntryV1)
    → b.entries ≡ e ∷ []
    → signing_preimage b ≡ encode_parts signature_domain (batch_parts (with_entry b e))
unfolding signing_preimage
fixed b e only =
    ap (λ l. encode_parts signature_domain (batch_parts (record b { entries = l }))) only

-- Two well-formed batches with one signing preimage agree in every covered field, the exact bytes of
-- the journal record included.
pub signing_preimage_covers :
    (a b : SignedFactCreateBatchV1) {p : Bytes}
    → IsTypedBatch a
    → IsTypedBatch b
    → validate_structure a ≡ ok tt
    → validate_structure b ≡ ok tt
    → signing_preimage a ≡ ok p
    → signing_preimage b ≡ ok p
    → SameBatch a b
signing_preimage_covers a b ta tb sa sb ha hb =
    let wa = (validate_structure_iff a).0 sa in
    let wb = (validate_structure_iff b).0 sb in
    let te = entry_IsTyped a wa.entry ta wa.only in
    let tf = entry_IsTyped b wb.entry tb wb.only in
    covered a b wa.entry wb.entry ta tb te tf wa.only wb.only wa wb (
      encode_parts_injective signature_domain (batch_parts (with_entry a wa.entry))
        (batch_parts (with_entry b wb.entry)) (shapes a b wa.entry wb.entry te tf)
        (sym (fixed a wa.entry wa.only) ∙ ha) (sym (fixed b wb.entry wb.only) ∙ hb))
