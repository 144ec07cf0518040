-- ===== src/Replication/Canonical/Checks.antt =====
-- src/replication/canonical.rs: what each step of the validation accepts.
use mnemes.Prelude.{
  ℕ, suc, ◌≤◌, ◌<◌, ◌≡◌, refl, ◌≢◌, ◌↔◌, Option, none, some, List, [], ◌∷◌, String, arith, length,
  is_empty, All, Result, ok, err, reject_if, reject_if_iff, then_iff, ltb, map_err, >>=-eq-ok,
  list_beq_iff,
}
use mnemes.Prelude.Bytes.{Bytes}
use mnemes.Prelude.Text.{Text, as_bytes, trim, HasInk, trim-HasInk}
use mnemes.Replication.Roles.Laws.{MaySign, may_sign_iff}
use mnemes.Replication.Roles.{role_from_u8, artifact_from_u8}
use mnemes.Replication.Error.{ReplicationError, empty_field, empty_payload, invalid_public_key}
use mnemes.Replication.Envelope.{MemoryMutationEnvelopeV1, signing_preimage}
use mnemes.Replication.Crypto.{Crypto}
use mnemes.Replication.Canonical.{
  check_version, check_codes, check_required, check_payload_present, find_control, control_error,
  check_controls, max_payload_len, check_lengths, check_payload_limit, check_interval,
  check_payload, check_sizes, check_matrix, check_signature,
}

pub check_version_iff :
    (e : MemoryMutationEnvelopeV1) → (check_version e ≡ ok tt) ↔ (e.protocol_version ≡ 1)
unfolding check_version
check_version_iff e = ground arith

-- Every role and every kind has a code that decodes: these two tests refuse nothing.
pub check_codes-passes : (e : MemoryMutationEnvelopeV1) → check_codes e ≡ ok tt
unfolding check_codes role_from_u8 artifact_from_u8
check_codes-passes e = ground arith

reject_blank_iff :
    (s : Text) (x : ReplicationError) → (reject_if (is_empty (trim s)) x ≡ ok tt) ↔ HasInk s
reject_blank_iff s x =
    let passes = reject_if_iff (is_empty (trim s)) x in
    let ink = trim-HasInk s in (λ h. ink.0 (passes.0 h), λ h. passes.1 (ink.1 h))

pub check_required_iff :
    (fs : List (String × Text)) → (check_required fs ≡ ok tt) ↔ All (λ f. HasInk f.1) fs
unfolding check_required
check_required_iff [] = (λ h. tt, λ h. refl)
check_required_iff ((name, field) ∷ fs) =
    then_iff _ (check_required fs) (reject_blank_iff field (empty_field name))
      (check_required_iff fs)

present_iff :
    (p : Bytes) (x : ReplicationError) → (reject_if (is_empty p) x ≡ ok tt) ↔ (0 < length p)
present_iff [] x = (λ h. cc, λ h. absurd (omega arith))
present_iff (b ∷ p) x = (λ h. omega arith, λ h. refl)

pub check_payload_present_iff :
    (e : MemoryMutationEnvelopeV1)
    → (check_payload_present e ≡ ok tt) ↔ (0 < length e.canonical_payload)
unfolding check_payload_present
check_payload_present_iff e = present_iff e.canonical_payload empty_payload

abbrev pub IsPrintable : ℕ → Type 0
IsPrintable b = (0x20 ≤ b) × (b ≢ 0x7f)

find_control_iff : (pos : ℕ) (bs : Bytes) → (find_control pos bs ≡ none) ↔ All IsPrintable bs
unfolding find_control
find_control_iff pos [] = (λ h. tt, λ h. refl)
find_control_iff pos (b ∷ bs) = ground (arith, find_control_iff (suc pos) bs)

control_error_iff :
    (name : String) (o : Option (ℕ × ℕ)) → (control_error name o ≡ ok tt) ↔ (o ≡ none)
unfolding control_error
control_error_iff name none = (λ h. refl, λ h. refl)
control_error_iff name (some p) = (λ h. cc, λ h. cc)

no_control_iff :
    (name : String) (bs : Bytes)
    → (control_error name (find_control 0 bs) ≡ ok tt) ↔ All IsPrintable bs
no_control_iff name bs =
    let found = control_error_iff name (find_control 0 bs) in
    let clean = find_control_iff 0 bs in (λ h. clean.0 (found.0 h), λ h. found.1 (clean.1 h))

pub check_controls_iff :
    (fs : List (String × Text))
    → (check_controls fs ≡ ok tt) ↔ All (λ f. All IsPrintable (as_bytes f.1)) fs
unfolding check_controls
check_controls_iff [] = (λ h. tt, λ h. refl)
check_controls_iff ((name, field) ∷ fs) =
    then_iff _ (check_controls fs) (no_control_iff name (as_bytes field)) (check_controls_iff fs)

short_iff : (n max : ℕ) (x : ReplicationError) → (reject_if (ltb max n) x ≡ ok tt) ↔ (n ≤ max)
short_iff n max x = ground arith

pub check_lengths_iff :
    (fs : List (String × Text × ℕ))
    → (check_lengths fs ≡ ok tt) ↔ All (λ f. length (as_bytes f.1) ≤ f.2) fs
unfolding check_lengths
check_lengths_iff [] = (λ h. tt, λ h. refl)
check_lengths_iff ((name, field, max) ∷ fs) =
    then_iff _ (check_lengths fs) (short_iff (length (as_bytes field)) max _) (check_lengths_iff fs)

pub check_payload_limit_iff :
    (e : MemoryMutationEnvelopeV1)
    → (check_payload_limit e ≡ ok tt) ↔ (length e.canonical_payload ≤ max_payload_len)
unfolding check_payload_limit
check_payload_limit_iff e = short_iff (length e.canonical_payload) max_payload_len _

pub check_interval_iff :
    (e : MemoryMutationEnvelopeV1) → (check_interval e ≡ ok tt) ↔ (e.valid_from ≤ e.valid_to)
unfolding check_interval
check_interval_iff e = short_iff e.valid_from e.valid_to _

pub check_sizes_iff :
    (e : MemoryMutationEnvelopeV1)
    → (check_sizes e ≡ ok tt) ↔ (
        (length e.authorization_snapshot_id ≡ 16)
        × (length e.signer_public_key ≡ 32)
        × (length e.signature ≡ 64))
unfolding check_sizes
check_sizes_iff e = ground arith

pub check_matrix_iff :
    (e : MemoryMutationEnvelopeV1)
    → (check_matrix e ≡ ok tt) ↔ MaySign e.signer_role e.artifact_kind
unfolding check_matrix
check_matrix_iff e =
    let permitted = may_sign_iff e.signer_role e.artifact_kind in
    (λ h. permitted.0 (ground arith), λ m. let p = permitted.1 m in ground arith)

module _ (c : Crypto) where
  open c use {VerifyingKey, sha256, from_bytes, verify}

  pub check_payload_iff :
      (e : MemoryMutationEnvelopeV1)
      → (check_payload c e ≡ ok tt) ↔ (
          (e.payload_length ≡ length e.canonical_payload)
          × (sha256 e.canonical_payload ≡ e.payload_digest))
  unfolding check_payload
  check_payload_iff e = ground (arith, list_beq_iff (sha256 e.canonical_payload) e.payload_digest)

  -- The embedded key decodes, and the signature on the preimage verifies under it.
  pub record IsSigned (e : MemoryMutationEnvelopeV1) : Type 0 where
    pub key : VerifyingKey
    pub preimage : Bytes
    pub decodes : from_bytes e.signer_public_key ≡ ok key
    pub encodes : signing_preimage e ≡ ok preimage
    pub verifies : verify key preimage e.signature ≡ ok tt

  map_err-ok :
      {E : Type 0} {F : Type 0} {A : Type 0}
      → (f : E → F) (r : Result E A) {a : A} → map_err f r ≡ ok a
      → r ≡ ok a
  map_err-ok f (ok x) h = ground arith
  map_err-ok f (err x) h = cc

  pub check_signature_iff :
      (e : MemoryMutationEnvelopeV1) → (check_signature c e ≡ ok tt) ↔ IsSigned e
  unfolding check_signature
  check_signature_iff e = (forward, λ s. rw (s.decodes, s.encodes, s.verifies))
    where
      forward : check_signature c e ≡ ok tt → IsSigned e
      forward h =
          let (key, decodes, h') =
            >>=-eq-ok (map_err invalid_public_key (from_bytes e.signer_public_key)) _ h in
          let (preimage, encodes, h'') = >>=-eq-ok (signing_preimage e) _ h' in
          record {
            key = key;
            preimage = preimage;
            decodes = map_err-ok _ _ decodes;
            encodes = encodes;
            verifies = map_err-ok _ _ h'';
          }
