-- ===== src/Operations/RunPack/Laws.antt =====
-- src/run_pack.rs: the tests of an import accept exactly what the witness attests.
use mnemes.Prelude.{
  ℕ, ◌≤◌, ◌≡◌, ◌≢◌, refl, ap, ◌↔◌, ◌⊎◌, Bool, true, false, not, ◌||◌, Option, none, some, List, [],
  ◌∷◌, any, all, All, length, leb, arith, list_eq, nat_eq, list_beq, list_beq_iff, nat_beq_iff,
  ne_iff, or_iff, and_iff, either_iff, then_iff, reject_unless_iff, ok, ◌>>=◌, ok_or, reject_if,
  ◌∙◌, ◌!=◌,
}
use mathlib.Core.Path.{subst}
use mnemes.Error.{invalid_provenance, words}
use mnemes.Prelude.Bytes.{Bytes}
use mnemes.Prelude.Text.{Text, text, as_bytes}
use mnemes.Profiles.Scope.{split_path, is_absolute, has_parent_dir}
use mnemes.Operations.RunPack.{
  Codec, RunPackAdmissionWitnessV1, RunPackEvidenceProjectionV1, is_lower_hex, valid_digest,
  is_retention_state, or_empty, projection_digest, is_time, check_signature, check_witness,
  check_projection, admit_run_pack,
}

not_iff : {P : Type 0} (b : Bool) → (b ≡ true) ↔ P → (not b ≡ false) ↔ P
not_iff true p = (λ h. p.0 refl, λ h. refl)
not_iff false p = (λ h. cc, λ h. cc (p.1 h))

all_iff :
    {A : Type 0} {P : A → Type 0} (test : A → Bool)
    → ((x : A) → (test x ≡ true) ↔ P x)
    → (xs : List A) → (all test xs ≡ true) ↔ All P xs
all_iff test exact [] = (λ h. tt, λ h. refl)
all_iff test exact (x ∷ xs) = and_iff (test x) (all test xs) (exact x) (all_iff test exact xs)

none_of_iff :
    {A : Type 0} {P : A → Type 0} (test : A → Bool)
    → ((x : A) → (test x ≡ false) ↔ P x)
    → (xs : List A) → (any test xs ≡ false) ↔ All P xs
none_of_iff test exact [] = (λ h. tt, λ h. refl)
none_of_iff test exact (x ∷ xs) =
    or_iff (test x) (any test xs) (exact x) (none_of_iff test exact xs)

-- 64 digits or letters from a to f.
pub record IsDigest (t : Text) : Type 0 where
  pub bytes : length (as_bytes t) ≡ 64
  pub digits : All (λ c. ((48 ≤ c) × (c ≤ 57)) ⊎ ((97 ≤ c) × (c ≤ 102))) t

leb_iff : (a b : ℕ) → (leb a b ≡ true) ↔ (a ≤ b)
leb_iff a b = ground arith

valid_digest-IsDigest : (t : Text) → (valid_digest t ≡ true) ↔ IsDigest t
unfolding valid_digest
valid_digest-IsDigest t =
    let tests = and_iff _ _ (nat_beq_iff (length (as_bytes t)) 64) (
      all_iff is_lower_hex
        (λ c.
          either_iff _ _ (and_iff _ _ (leb_iff 48 c) (leb_iff c 57))
            (and_iff _ _ (leb_iff 97 c) (leb_iff c 102)))
        t) in
    (
      λ h. let (bytes, digits) = tests.0 h in record { bytes = bytes; digits = digits },
      λ w. tests.1 (w.bytes, w.digits),
    )

refused_iff : (t : Text) → (not (valid_digest t) ≡ false) ↔ IsDigest t
refused_iff t = not_iff _ (valid_digest-IsDigest t)

-- A path below its root.
pub record IsBelow (path : Text) : Type 0 where
  pub relative : is_absolute path ≡ false
  pub no_parent : All (λ component. component ≢ text "..") (split_path path)

differs_iff : (a b : Text) → (list_beq a b ≡ false) ↔ (a ≢ b)
differs_iff a b = go (list_beq a b) (list_beq_iff a b)
  where
    go : (t : Bool) → (t ≡ true) ↔ (a ≡ b) → (t ≡ false) ↔ (a ≢ b)
    go true h = (λ e. cc, λ d. absurd (d (h.0 refl)))
    go false h = (λ e same. cc (h.1 same), λ d. refl)

same_iff : (b : Bool) → (b ≡ false) ↔ (b ≡ false)
same_iff b = (λ h. h, λ h. h)

stays_iff : (path : Text) → ((is_absolute path || has_parent_dir path) ≡ false) ↔ IsBelow path
stays_iff path =
    let tests =
      or_iff _ _ (same_iff (is_absolute path))
        (none_of_iff _ (λ component. differs_iff component (text "..")) (split_path path)) in
    (
      λ h.
          let (relative, no_parent) = tests.0 h in
          record { relative = relative; no_parent = no_parent },
      λ w. tests.1 (w.relative, w.no_parent),
    )

-- A projection that may be imported.
pub record IsProjection (codec : Codec) (p : RunPackEvidenceProjectionV1) : Type 0 where
  pub schema : p.schema ≡ text "RunPackEvidenceProjectionV1"
  pub outcome : p.verification.outcome ≡ text "verified"
  pub id_digest : IsDigest p.projection_id
  pub manifest_digest : IsDigest p.pack_manifest_digest
  pub content_digest : IsDigest p.pack_content_digest
  pub receipt_digest : IsDigest p.verification.verification_receipt_digest
  pub chain_digest : IsDigest p.event_summary.receipt_chain_digest
  pub artifact_digests : All IsDigest p.event_summary.artifact_digests
  pub retention : is_retention_state p.vault.retention_state ≡ true
  pub below : IsBelow p.vault.relative_ref
  pub observed : is_time codec p.origin.observed_at ≡ true

-- A witness for the projection.
pub record IsWitnessOf (codec : Codec) (p : RunPackEvidenceProjectionV1)
    (w : RunPackAdmissionWitnessV1) : Type 0 where
  pub format : w.format ≡ text "mnemes.run-pack-admission-witness/v1"
  pub verified : w.verified ≡ true
  pub canonical : w.canonical_projection_digest ≡ projection_digest codec p
  pub manifest : w.pack_manifest_digest ≡ p.pack_manifest_digest
  pub content : w.pack_content_digest ≡ p.pack_content_digest
  pub receipt : w.verification_receipt_digest ≡ p.verification.verification_receipt_digest

true_iff : (b : Bool) → (b ≡ true) ↔ (b ≡ true)
true_iff b = (λ h. h, λ h. h)

check_witness_iff :
    (codec : Codec) (p : RunPackEvidenceProjectionV1) (w : RunPackAdmissionWitnessV1)
    → (check_witness codec p w ≡ ok tt) ↔ IsWitnessOf codec p w
unfolding check_witness
check_witness_iff codec p w =
    let tests = reject_unless_iff _ _ (
      or_iff _ _
        (or_iff _ _
          (or_iff _ _
            (or_iff _ _
              (or_iff _ _ (ne_iff w.format (text "mnemes.run-pack-admission-witness/v1"))
                (not_iff _ (true_iff w.verified)))
              (ne_iff w.canonical_projection_digest (projection_digest codec p)))
            (ne_iff w.pack_manifest_digest p.pack_manifest_digest))
          (ne_iff w.pack_content_digest p.pack_content_digest))
        (ne_iff w.verification_receipt_digest p.verification.verification_receipt_digest)) in
    (
      λ h.
          let (((((format, verified), canonical), manifest), content), receipt) = tests.0 h in
          record {
            format = format;
            verified = verified;
            canonical = canonical;
            manifest = manifest;
            content = content;
            receipt = receipt;
          },
      λ x. tests.1 (((((x.format, x.verified), x.canonical), x.manifest), x.content), x.receipt),
    )

check_projection_iff :
    (codec : Codec) (p : RunPackEvidenceProjectionV1)
    → (check_projection codec p ≡ ok tt) ↔ IsProjection codec p
unfolding check_projection
check_projection_iff codec p =
    let tests =
      then_iff _ _
        (reject_unless_iff _ _ (
          or_iff _ _ (ne_iff p.schema (text "RunPackEvidenceProjectionV1"))
            (ne_iff p.verification.outcome (text "verified"))))
        (then_iff _ _
          (reject_unless_iff _ _ (
            or_iff _ _
              (or_iff _ _
                (or_iff _ _
                  (or_iff _ _
                    (or_iff _ _ (refused_iff p.projection_id) (refused_iff p.pack_manifest_digest))
                    (refused_iff p.pack_content_digest))
                  (refused_iff p.verification.verification_receipt_digest))
                (refused_iff p.event_summary.receipt_chain_digest))
              (none_of_iff _ refused_iff p.event_summary.artifact_digests)))
          (then_iff _ _
            (reject_unless_iff _ _
              (not_iff _ (true_iff (is_retention_state p.vault.retention_state))))
            (then_iff _ _ (reject_unless_iff _ _ (stays_iff p.vault.relative_ref)) (
              reject_unless_iff _ _
                (not_iff _ (true_iff (is_time codec p.origin.observed_at))))))) in
    (
      λ h.
          let (
            (schema, outcome),
            ((((((d1, d2), d3), d4), d5), d6), (retention, (below, observed))),
          ) =
            tests.0 h in
          record {
            schema = schema;
            outcome = outcome;
            id_digest = d1;
            manifest_digest = d2;
            content_digest = d3;
            receipt_digest = d4;
            chain_digest = d5;
            artifact_digests = d6;
            retention = retention;
            below = below;
            observed = observed;
          },
      λ x. tests.1 (
        (x.schema, x.outcome),
        (
          (
            (
              (((x.id_digest, x.manifest_digest), x.content_digest), x.receipt_digest),
              x.chain_digest,
            ),
            x.artifact_digests,
          ),
          (x.retention, (x.below, x.observed)),
        ),
      ),
    )

-- The signature is the HMAC of the witness under the key.
pub record IsSigned (codec : Codec) (key : Bytes) (w : RunPackAdmissionWitnessV1) : Type 0 where
  pub mac : Bytes
  pub expected : codec.hmac_sha256 key (codec.witness_bytes w) ≡ some mac
  pub supplied : or_empty (codec.hex_decode w.signature) ≡ mac

check_signature_iff :
    (codec : Codec) (key : Bytes) (w : RunPackAdmissionWitnessV1)
    → (check_signature codec key w ≡ ok tt) ↔ IsSigned codec key w
unfolding check_signature
check_signature_iff codec key w = go (codec.hmac_sha256 key (codec.witness_bytes w)) refl
  where
    go :
        (o : Option Bytes)
        → codec.hmac_sha256 key (codec.witness_bytes w) ≡ o
        → ((ok_or o (invalid_provenance (words "invalid run-pack attestation key")) >>= λ expected.
              reject_if
                (length (or_empty (codec.hex_decode w.signature)) != length expected
                  || or_empty (codec.hex_decode w.signature) != expected)
                (invalid_provenance (words "invalid run-pack admission witness signature")))
            ≡ ok tt)
          ↔ IsSigned codec key w
    go none e = (λ h. cc, λ x. cc (x.expected, e))
    go (some mac) e =
        let tests = reject_unless_iff _ _ (
          or_iff _ _ (ne_iff (length (or_empty (codec.hex_decode w.signature))) (length mac))
            (ne_iff (or_empty (codec.hex_decode w.signature)) mac)) in
        (
          λ h. record { mac = mac; expected = e; supplied = (tests.0 h).1 },
          λ x.
              let same : x.mac ≡ mac = cc (x.expected, e) in
              tests.1 (ap length (x.supplied ∙ same), x.supplied ∙ same),
        )

-- An import passes its tests exactly when a key is configured, the witness's signature is its HMAC
-- under that key, the witness is verified and states the digests of the projection, and the projection
-- is verified, with digests in lower-case hexadecimal, a known retention state, a vault reference that
-- stays below its root, and an observation time that can be read.
pub admit_run_pack_iff :
    (codec : Codec) (attestation_key : Option Bytes) (p : RunPackEvidenceProjectionV1)
    (w : RunPackAdmissionWitnessV1)
    → (admit_run_pack codec attestation_key p w ≡ ok tt) ↔ (
        (key : Bytes) × (attestation_key ≡ some key)
        × IsSigned codec key w
        × IsWitnessOf codec p w
        × IsProjection codec p)
unfolding admit_run_pack
admit_run_pack_iff codec none p w = (λ h. cc, λ (key, e, a, b, c). cc)
admit_run_pack_iff codec (some key) p w =
    let tests =
      then_iff _ _ (check_signature_iff codec key w)
        (then_iff _ _ (check_witness_iff codec p w) (check_projection_iff codec p)) in
    (
      λ h.
          let (signed, (witness, projection)) = tests.0 h in
          (key, refl, signed, witness, projection),
      λ (key', e, signed, witness, projection).
          let same : key' ≡ key = cc in
          tests.1 (subst (λ k. IsSigned codec k w) same signed, (witness, projection)),
    )
