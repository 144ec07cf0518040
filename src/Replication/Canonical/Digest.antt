-- ===== src/Replication/Canonical/Digest.antt =====
-- src/replication/canonical.rs: the canonical digest is the hash of the covered fields, and binds
-- them up to a collision of the hash.
use mnemes.Prelude.{
  ◌≡◌, ◌≢◌, refl, sym, ◌∙◌, ◌⊎◌, inl, inr, false, ◌++◌, arith, length, length-append, drop-append,
  ltb, ok, >>=-eq-ok, append_cancel, list_beq, list_beq_iff, Bool-cases,
}
use mnemes.Prelude.Bytes.{Bytes}
use mathlib.Core.Bool.{false≢true}
use mnemes.Replication.Parts.{encode_parts}
use mnemes.Replication.Parts.Laws.{
  flat, HasRoom, encode_parts-eq-flat, encode_parts_total, flat_injective,
}
use mnemes.Replication.Envelope.{
  MemoryMutationEnvelopeV1, IsTyped, envelope_parts, signature_domain_tag, digest_domain_tag,
  signing_preimage,
}
use mnemes.Replication.Envelope.Laws.{SameSigned, SameShape-envelope_parts, SameParts-SameSigned}
use mnemes.Replication.Crypto.{Crypto}
use mnemes.Replication.Canonical.{canonical_digest}
use mnemes.Replication.Canonical.Laws.{IsValid}

-- What the digest of an envelope is the hash of.
abbrev pub material : MemoryMutationEnvelopeV1 → Bytes
material e = digest_domain_tag ++ flat (envelope_parts e)

-- The encodings of two envelopes differ and have one hash.
pub record Collision (c : Crypto) (a b : MemoryMutationEnvelopeV1) : Type 0 where
  pub differ : material a ≢ material b
  pub collide : c.sha256 (material a) ≡ c.sha256 (material b)

abbrev fields_of : MemoryMutationEnvelopeV1 → Bytes
fields_of e = flat (envelope_parts e)

module _ (c : Crypto) where
  -- The digest is refused only if some field does not fit its length prefix.
  pub canonical_digest_total :
      (e : MemoryMutationEnvelopeV1)
      → HasRoom (envelope_parts e)
      → canonical_digest c e ≡ ok (c.sha256 (digest_domain_tag ++ flat (envelope_parts e)))
  unfolding canonical_digest signing_preimage
  canonical_digest_total e h = rw (encode_parts_total signature_domain_tag (envelope_parts e) h) (
      rw (long_enough (flat (envelope_parts e)))
        (rw (drop-append signature_domain_tag (flat (envelope_parts e)))))
    where
      long_enough :
          (rest : Bytes)
          → ltb (length (signature_domain_tag ++ rest)) (length signature_domain_tag) ≡ false
      long_enough rest = ground (arith, length-append signature_domain_tag rest)

  has_room :
      (e : MemoryMutationEnvelopeV1) {d : Bytes}
      → canonical_digest c e ≡ ok d
      → HasRoom (envelope_parts e)
  unfolding canonical_digest signing_preimage
  has_room e h =
      let (p, encoded, _) = >>=-eq-ok (encode_parts signature_domain_tag (envelope_parts e)) _ h in
      (encode_parts-eq-flat signature_domain_tag (envelope_parts e) encoded).0

  pub digest_inverse :
      (e : MemoryMutationEnvelopeV1) {d : Bytes}
      → canonical_digest c e ≡ ok d
      → d ≡ c.sha256 (digest_domain_tag ++ flat (envelope_parts e))
  digest_inverse e h = let total = canonical_digest_total e (has_room e h) in cc

  -- Two envelopes with one canonical digest agree in every covered field, or their own encodings, each
  -- the digest's domain tag and the covered fields, are different and have one hash.
  pub canonical_digest_binds :
      (a b : MemoryMutationEnvelopeV1) {d : Bytes}
      → IsTyped a
      → IsTyped b
      → canonical_digest c a ≡ ok d
      → canonical_digest c b ≡ ok d
      → SameSigned a b ⊎ Collision c a b
  canonical_digest_binds a b ta tb ha hb =
      let x = digest_domain_tag ++ fields_of a in
      let y = digest_domain_tag ++ fields_of b in
      let one : c.sha256 x ≡ c.sha256 y = sym (digest_inverse a ha) ∙ digest_inverse b hb in
      elim (Bool-cases (list_beq x y)) [
        | inl same ↦ inl (
            SameParts-SameSigned a b ta tb (
              flat_injective (envelope_parts a) (envelope_parts b)
                (SameShape-envelope_parts a b ta tb) (has_room a ha) (has_room b hb)
                (append_cancel digest_domain_tag digest_domain_tag refl
                  ((list_beq_iff x y).0 same)).1))
        | inr differ ↦ inr (record {
          differ = λ e. false≢true (sym differ ∙ (list_beq_iff x y).1 e);
          collide = one;
        })
      ]

  -- A valid envelope has a digest.
  pub digest_of_valid :
      (e : MemoryMutationEnvelopeV1) → IsValid c e → (d : Bytes) × (canonical_digest c e ≡ ok d)
  unfolding signing_preimage
  digest_of_valid e v = (
    _,
    canonical_digest_total e
        (encode_parts-eq-flat signature_domain_tag (envelope_parts e) v.signed.encodes).0,
  )
