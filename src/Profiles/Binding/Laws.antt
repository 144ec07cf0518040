-- ===== src/Profiles/Binding/Laws.antt =====
-- src/profile_store.rs: what a valid binding is, and what its digest binds.
use mnemes.Prelude.{
  ℕ, zero, suc, false, ◌<◌, ◌≤◌, ◌≡◌, sym, ap, ◌∙◌, ◌↔◌, ◌⊎◌, inl, inr, some, List, [], ◌∷◌, All,
  length, arith, ok, nat_beq, then_iff, or_iff, ne_iff, reject_unless_iff, nat_eq, list_eq,
}
use mnemes.Prelude.Bytes.{Bytes}
use mnemes.Prelude.Text.{Text, as_bytes}
use mnemes.Prelude.Decimal.{decimal_injective}
use mnemes.Profiles.Access.Laws.{runs_iff, precedes_iff}
use mnemes.Profiles.Digest.Laws.{IsField, HexCollision, digest_fields_binds}
use mnemes.Profiles.Binding.{
  ActorProfileBinding, binding_domain, issuance_fields, binding_digest, binding_validate,
}

-- A binding that runs for some time, and whose digest is that of its issuance.
pub record IsBinding (sha256_hex : Bytes → Text) (b : ActorProfileBinding) : Type 0 where
  pub runs : b.valid_from < b.expires_at
  pub epoch : 0 < b.binding_epoch
  pub revoked_later : (t : ℕ) → b.revoked_at ≡ some t → b.valid_from ≤ t
  pub digest_length : length (as_bytes b.binding_digest) ≡ 64
  pub digest : b.binding_digest ≡ binding_digest sha256_hex b

epoch_iff : (n : ℕ) → (nat_beq n 0 ≡ false) ↔ (0 < n)
epoch_iff n = ground arith

pub binding_validate_iff :
    (sha256_hex : Bytes → Text) (b : ActorProfileBinding)
    → (binding_validate sha256_hex b ≡ ok tt) ↔ IsBinding sha256_hex b
unfolding binding_validate
binding_validate_iff sha256_hex b =
    let steps = then_iff _ _ (reject_unless_iff _ _ (runs_iff b.valid_from b.expires_at)) (
      then_iff _ _ (reject_unless_iff _ _ (epoch_iff b.binding_epoch)) (
        then_iff _ _ (reject_unless_iff _ _ (precedes_iff b.revoked_at b.valid_from)) (
          reject_unless_iff _ _ (
            or_iff _ _ (ne_iff (length (as_bytes b.binding_digest)) 64)
              (ne_iff b.binding_digest (binding_digest sha256_hex b)))))) in
    (
      λ h.
          let (runs, (epoch, (later, (digest_length, digest)))) = steps.0 h in
          record {
            runs = runs;
            epoch = epoch;
            revoked_later = later;
            digest_length = digest_length;
            digest = digest;
          },
      λ w. steps.1 (w.runs, (w.epoch, (w.revoked_later, (w.digest_length, w.digest)))),
    )

-- Equal in all that was fixed when the binding was issued.
pub record SameIssuance (a b : ActorProfileBinding) : Type 0 where
  pub id : a.binding_id ≡ b.binding_id
  pub actor : a.actor_id ≡ b.actor_id
  pub profile : a.profile_id.as_str ≡ b.profile_id.as_str
  pub owner : a.owner_device_id ≡ b.owner_device_id
  pub issuer : a.issued_by_actor_id ≡ b.issued_by_actor_id
  pub from : a.valid_from ≡ b.valid_from
  pub to : a.expires_at ≡ b.expires_at
  pub epoch : a.binding_epoch ≡ b.binding_epoch

nth : ℕ → List Text → Text
nth n [] = []
nth zero (x ∷ xs) = x
nth (suc n) (x ∷ xs) = nth n xs

same_issuance :
    (a b : ActorProfileBinding)
    → ◌≡◌ {A = List Text} (binding_domain ∷ issuance_fields a) (binding_domain ∷ issuance_fields b)
    → SameIssuance a b
unfolding nth
same_issuance a b h = record {
  id = ap (nth 1) h;
  actor = ap (nth 2) h;
  profile = ap (nth 3) h;
  owner = ap (nth 4) h;
  issuer = ap (nth 5) h;
  from = decimal_injective _ _ (ap (nth 6) h);
  to = decimal_injective _ _ (ap (nth 7) h);
  epoch = decimal_injective _ _ (ap (nth 8) h);
}

-- Two valid bindings with one digest agree in all that was fixed at issuance, or the hash collides:
-- what may differ is the revocation and the time of recording.
pub binding_digest_binds :
    (sha256_hex : Bytes → Text) (a b : ActorProfileBinding)
    → All IsField (binding_domain ∷ issuance_fields a)
    → All IsField (binding_domain ∷ issuance_fields b)
    → binding_validate sha256_hex a ≡ ok tt
    → binding_validate sha256_hex b ≡ ok tt
    → a.binding_digest ≡ b.binding_digest
    → SameIssuance a b ⊎ HexCollision sha256_hex
unfolding binding_digest
binding_digest_binds sha256_hex a b ta tb va vb same =
    let wa = ((binding_validate_iff sha256_hex a).0 va).digest in
    let wb = ((binding_validate_iff sha256_hex b).0 vb).digest in
    elim (digest_fields_binds sha256_hex binding_domain (issuance_fields a) (issuance_fields b)
      (omega arith) ta tb (sym wa ∙ same ∙ wb)) [
        | inl e ↦ inl (same_issuance a b e)
        | inr c ↦ inr c
      ]
