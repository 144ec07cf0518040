-- ===== src/Replication/Roles/Laws.antt =====
-- src/replication/types.rs: the byte codes are exact, and the signing matrix as a relation.
use mnemes.Prelude.{ℕ, ◌≡◌, refl, ◌↔◌, true, some, arith}
use mnemes.Replication.Roles.{
  SignerRole, ArtifactKind, role_u8, role_from_u8, artifact_to_u8, artifact_from_u8, may_sign,
}

-- Decoding a byte gives exactly the role, or the artifact kind, that has the byte for its code.
pub from_u8_exact :
    (v : ℕ) (r : SignerRole) (k : ArtifactKind)
    → ((role_from_u8 v ≡ some r) ↔ (role_u8 r ≡ v))
      × ((artifact_from_u8 v ≡ some k) ↔ (artifact_to_u8 k ≡ v))
unfolding role_from_u8 artifact_from_u8
from_u8_exact v r k = ground arith

-- The contract's matrix, as a relation.
pub data MaySign : SignerRole → ArtifactKind → Type 0 where
  writer_mutation : MaySign SignerRole.device_writer ArtifactKind.mutation
  issuer_mutation : MaySign SignerRole.semantic_authority_issuer ArtifactKind.mutation
  recovery_promotion : MaySign SignerRole.recovery_authority ArtifactKind.promotion
  recovery_bootstrap : MaySign SignerRole.recovery_authority ArtifactKind.bootstrap
  sync_ack : MaySign SignerRole.sync_service ArtifactKind.ack
  authority_grant : MaySign SignerRole.grant_authority ArtifactKind.grant
  operator_grant : MaySign SignerRole.operator_root ArtifactKind.grant
  issuer_proposal : MaySign SignerRole.proposal_issuer ArtifactKind.proposal
  routing_routing_receipt : MaySign SignerRole.routing_service ArtifactKind.routing_receipt

ruleset matrix = (
  writer_mutation, issuer_mutation, recovery_promotion, recovery_bootstrap, sync_ack,
  authority_grant, operator_grant, issuer_proposal, routing_routing_receipt,
)

may_sign_sound : (r : SignerRole) (k : ArtifactKind) → may_sign r k ≡ true → MaySign r k
unfolding may_sign
may_sign_sound r k h = grind (arith, matrix)

may_sign_complete : {r : SignerRole} {k : ArtifactKind} → MaySign r k → may_sign r k ≡ true
unfolding may_sign
may_sign_complete writer_mutation = refl
may_sign_complete issuer_mutation = refl
may_sign_complete recovery_promotion = refl
may_sign_complete recovery_bootstrap = refl
may_sign_complete sync_ack = refl
may_sign_complete authority_grant = refl
may_sign_complete operator_grant = refl
may_sign_complete issuer_proposal = refl
may_sign_complete routing_routing_receipt = refl

pub may_sign_iff : (r : SignerRole) (k : ArtifactKind) → (may_sign r k ≡ true) ↔ MaySign r k
may_sign_iff r k = (may_sign_sound r k, λ m. may_sign_complete m)
