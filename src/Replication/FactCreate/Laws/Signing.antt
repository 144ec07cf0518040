-- ===== src/Replication/FactCreate/Laws/Signing.antt =====
-- src/replication/fact_create.rs: a batch that is signed validates.
use mnemes.Prelude.{◌≤◌, ◌++◌, ◌≡◌, refl, ◌∙◌, List, [], ◌∷◌, arith, length, All, ok}
use mathlib.Core.Path.{subst}
use mnemes.Prelude.Bytes.{Bytes}
use mnemes.Replication.Crypto.{Crypto}
use mnemes.Replication.Parts.{u32_max}
use mnemes.Replication.Parts.Laws.{HasRoom, flat, encode_parts_total}
use mnemes.Replication.Transport.{FactCreateJournal}
use mnemes.Replication.FactCreate.{
  FactCreateTransportEntryV1, SignedFactCreateBatchV1, batch_parts, signature_domain,
  signing_preimage, validate_structure, sign_batch, check_batch_signature, check_entries, validate,
}
use mnemes.Replication.FactCreate.Laws.{IsWellFormed, validate_structure_iff}
use mnemes.Replication.FactCreate.Laws.Coverage.{with_entry, fixed}

check_entries_reads :
    (j : FactCreateJournal) (b b' : SignedFactCreateBatchV1) (es : List FactCreateTransportEntryV1)
    → b.home_device_id ≡ b'.home_device_id
    → b.store_id ≡ b'.store_id
    → b.stream_epoch ≡ b'.stream_epoch
    → check_entries j b es ≡ check_entries j b' es
unfolding check_entries
check_entries_reads j b b' [] d s e = refl
check_entries_reads j b b' (x ∷ es) d s e = rw (d, s, e, check_entries_reads j b b' es d s e)

-- What Ed25519 promises of a key: its public bytes decode, and its signatures verify.
pub record IsKeyPair (c : Crypto) (k : c.SigningKey) : Type 0 where
  pub key : c.VerifyingKey
  pub decodes : c.from_bytes (c.public_bytes k) ≡ ok key
  pub verifies : (m : Bytes) → c.verify key m (c.sign k m) ≡ ok tt

room :
    (b : SignedFactCreateBatchV1) (w : IsWellFormed b)
    → length w.entry.payload ≤ u32_max
    → HasRoom (batch_parts (with_entry b w.entry))
room b w h =
    let s0 = w.batch_id.short in
    let s1 = w.home_device_id.short in
    let s2 = w.store_id.short in
    let s3 = w.signer_principal_id.short in let s4 = w.fencing_token.short in omega arith

module _ (c : Crypto) where
  abbrev signed : SignedFactCreateBatchV1 → c.SigningKey → Bytes → SignedFactCreateBatchV1
  signed b k p = record b { signer_public_key = c.public_bytes k; signature = c.sign k p }

  structure-signed :
      (b : SignedFactCreateBatchV1) (k : c.SigningKey) (p : Bytes)
      → validate_structure (signed b k p) ≡ validate_structure b
  unfolding validate_structure
  structure-signed b k p = refl

  preimage-signed :
      (b : SignedFactCreateBatchV1) (k : c.SigningKey) (p : Bytes)
      → signing_preimage (signed b k p) ≡ signing_preimage b
  unfolding signing_preimage
  preimage-signed b k p = refl

  sign_batch_lem :
      (b : SignedFactCreateBatchV1) (k : c.SigningKey) (p : Bytes)
      → validate_structure b ≡ ok tt
      → signing_preimage b ≡ ok p
      → sign_batch c b k ≡ ok (signed b k p)
  unfolding sign_batch signing_preimage
  sign_batch_lem b k p h e = rw (h, e)

  signature_passes :
      (b : SignedFactCreateBatchV1) (k : c.SigningKey) (p : Bytes)
      → IsKeyPair c k
      → signing_preimage b ≡ ok p
      → check_batch_signature c (signed b k p) ≡ ok tt
  unfolding check_batch_signature
  signature_passes b k p kp e = rw (kp.decodes, preimage-signed b k p, e, kp.verifies p)

  -- Signing a well-formed batch, whose payloads have at most `u32_max` bytes, succeeds, changes nothing but
  -- the key and the signature, and gives a batch that validates, if the owner accepts its records and the
  -- key is a key pair.
  pub sign_batch-validate :
      (j : FactCreateJournal) (b : SignedFactCreateBatchV1) (k : c.SigningKey)
      → validate_structure b ≡ ok tt
      → All (λ e. length e.payload ≤ u32_max) b.entries
      → check_entries j b b.entries ≡ ok tt
      → IsKeyPair c k
      → (p : Bytes) × (signing_preimage b ≡ ok p)
        × (sign_batch c b k
            ≡ ok (record b { signer_public_key = c.public_bytes k; signature = c.sign k p }))
        × (validate c j (record b { signer_public_key = c.public_bytes k; signature = c.sign k p })
            ≡ ok tt)
  unfolding validate
  sign_batch-validate j b k structure short owner kp =
      let w = (validate_structure_iff b).0 structure in
      let h : length w.entry.payload ≤ u32_max =
        (subst (All (λ e. length e.payload ≤ u32_max)) w.only short).0 in
      let p = signature_domain ++ flat (batch_parts (with_entry b w.entry)) in
      let encoded : signing_preimage b ≡ ok p =
        fixed b w.entry w.only
        ∙ encode_parts_total signature_domain (batch_parts (with_entry b w.entry)) (room b w h) in
      (
        p,
        encoded,
        sign_batch_lem b k p structure encoded,
        rw
            (
              structure-signed b k p,
              structure,
              check_entries_reads j (signed b k p) b b.entries refl refl refl,
              owner,
            )
            (signature_passes b k p kp encoded),
      )
