-- ===== src/Replication/Domains.antt =====
-- src/replication/types.rs, canonical.rs, fact_create.rs and fact_supersede.rs: the domain tags keep the
-- bytes that are signed for one purpose apart from those of another, and from what is hashed.
use mnemes.Prelude.{
  ℕ, zero, suc, refl, ap, if◌then◌else◌, ◌==◌, nat_eq, ◌≡◌, sym, ◌∙◌, [], ◌∷◌, ◌++◌, ok,
}
use mnemes.Prelude.Bytes.{Bytes}
use mnemes.Replication.Parts.Laws.{encode_parts-eq-flat}
use mnemes.Replication.Envelope
use mnemes.Replication.Envelope.{MemoryMutationEnvelopeV1}
use mnemes.Replication.Crypto.{Crypto}
use mnemes.Replication.Canonical.{canonical_digest}
use mnemes.Replication.Canonical.Digest.{digest_inverse}
use mnemes.Replication.FactCreate
use mnemes.Replication.FactCreate.{SignedFactCreateBatchV1}
use mnemes.Replication.FactSupersede
use mnemes.Replication.FactSupersede.{SignedFactSupersedeBatchV1}
use mnemes.Replication.Transport.{FactSupersedeOwner}

-- The three kinds of signatures, and the canonical digest of an envelope.
pub data Purpose : Type 0 where
  envelope_signature fact_create_signature fact_supersede_signature envelope_digest : Purpose

abbrev pub tag : Purpose → Bytes
tag envelope_signature = Envelope.signature_domain_tag
tag fact_create_signature = FactCreate.signature_domain
tag fact_supersede_signature = FactSupersede.signature_domain
tag envelope_digest = Envelope.digest_domain_tag

byte_at : ℕ → Bytes → ℕ
byte_at n [] = 0
byte_at zero (b ∷ bs) = b
byte_at (suc n) (b ∷ bs) = byte_at n bs

-- The purpose is read back from two bytes of the tag.
purpose_of : Bytes → Purpose
unfolding byte_at
purpose_of x =
    if byte_at 12 x == 99
    then fact_create_signature
    else if byte_at 12 x == 115
    then fact_supersede_signature
    else if byte_at 25 x == 115
    then envelope_signature
    else envelope_digest

purpose_of-tag : (p : Purpose) (x : Bytes) → purpose_of (tag p ++ x) ≡ p
unfolding purpose_of byte_at
purpose_of-tag envelope_signature x = refl
purpose_of-tag fact_create_signature x = refl
purpose_of-tag fact_supersede_signature x = refl
purpose_of-tag envelope_digest x = refl

tag_separates : (p q : Purpose) (x y : Bytes) → tag p ++ x ≡ tag q ++ y → p ≡ q
tag_separates p q x y h = sym (purpose_of-tag p x) ∙ ap purpose_of h ∙ purpose_of-tag q y

-- The cryptography with another hash, and with one that shows what it is given.
abbrev pub with_hash : Crypto → (Bytes → Bytes) → Crypto
with_hash c hash = record c { sha256 = hash }

abbrev transparent : Crypto → Crypto
transparent c = with_hash c (λ bytes. bytes)

-- `x` is what an artifact of this purpose is signed over, or what its digest is taken of, whatever the
-- hash.
abbrev pub IsBytesOf : FactSupersedeOwner → Crypto → Purpose → Bytes → Type 0
IsBytesOf o c envelope_signature x =
    (e : MemoryMutationEnvelopeV1) × (Envelope.signing_preimage e ≡ ok x)
IsBytesOf o c fact_create_signature x =
    (b : SignedFactCreateBatchV1) × (FactCreate.signing_preimage b ≡ ok x)
IsBytesOf o c fact_supersede_signature x =
    (b : SignedFactSupersedeBatchV1 o) × (FactSupersede.signing_preimage o b ≡ ok x)
IsBytesOf o c envelope_digest x =
    (e : MemoryMutationEnvelopeV1) × ((hash : Bytes → Bytes)
      → canonical_digest (with_hash c hash) e ≡ ok (hash x))

starts_with_tag :
    (o : FactSupersedeOwner) (c : Crypto) (p : Purpose) (x : Bytes)
    → IsBytesOf o c p x
    → (rest : Bytes) × (x ≡ tag p ++ rest)
unfolding Envelope.signing_preimage FactCreate.signing_preimage FactSupersede.signing_preimage
starts_with_tag o c envelope_signature x (e, h) = (_, (encode_parts-eq-flat _ _ h).1)
starts_with_tag o c fact_create_signature x (b, h) = (_, (encode_parts-eq-flat _ _ h).1)
starts_with_tag o c fact_supersede_signature x (b, h) = (_, (encode_parts-eq-flat _ _ h).1)
starts_with_tag o c envelope_digest x (e, h) =
    let d = h (λ bytes. bytes) in (_, digest_inverse (transparent c) e d)

-- The bytes that are signed for an envelope, for a batch that creates facts and for a batch that
-- supersedes them, and the bytes that the canonical digest of an envelope is the hash of, are never the
-- same for two of these four purposes.
pub domains_disjoint :
    (o : FactSupersedeOwner) (c : Crypto) (p q : Purpose) (x : Bytes)
    → IsBytesOf o c p x
    → IsBytesOf o c q x
    → p ≡ q
domains_disjoint o c p q x hp hq =
    let (a, ea) = starts_with_tag o c p x hp in
    let (b, eb) = starts_with_tag o c q x hq in tag_separates p q a b (sym ea ∙ eb)
