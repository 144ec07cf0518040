-- ===== src/Replication/Roles.antt =====
-- src/replication/types.rs: the closed enums of signer roles and artifact kinds, their bytes, and
-- the matrix of who may sign what.
pub mod Laws
use mnemes.Prelude.{
  ℕ, ◌≡◌, ◌↔◌, Bool, true, false, Option, none, some, arith, PartialEq, nat_beq, if◌then◌else◌,
}

pub data SignerRole : Type 0 where
  operator_root device_writer semantic_authority_issuer sync_service : SignerRole
  grant_authority proposal_issuer recovery_authority routing_service : SignerRole

-- `role as u8`
abbrev pub role_u8 : SignerRole → ℕ
role_u8 operator_root = 1
role_u8 device_writer = 2
role_u8 semantic_authority_issuer = 3
role_u8 sync_service = 4
role_u8 grant_authority = 5
role_u8 proposal_issuer = 6
role_u8 recovery_authority = 7
role_u8 routing_service = 8

unfoldable pub role_from_u8 : ℕ → Option SignerRole
role_from_u8 v =
    if nat_beq v 1
    then some operator_root
    else if nat_beq v 2
    then some device_writer
    else if nat_beq v 3
    then some semantic_authority_issuer
    else if nat_beq v 4
    then some sync_service
    else if nat_beq v 5
    then some grant_authority
    else if nat_beq v 6
    then some proposal_issuer
    else if nat_beq v 7
    then some recovery_authority
    else if nat_beq v 8
    then some routing_service
    else none

pub data ArtifactKind : Type 0 where
  mutation promotion bootstrap ack grant proposal routing_receipt : ArtifactKind

abbrev pub artifact_to_u8 : ArtifactKind → ℕ
artifact_to_u8 mutation = 1
artifact_to_u8 promotion = 2
artifact_to_u8 bootstrap = 3
artifact_to_u8 ack = 4
artifact_to_u8 grant = 5
artifact_to_u8 proposal = 6
artifact_to_u8 routing_receipt = 7

unfoldable pub artifact_from_u8 : ℕ → Option ArtifactKind
artifact_from_u8 v =
    if nat_beq v 1
    then some mutation
    else if nat_beq v 2
    then some promotion
    else if nat_beq v 3
    then some bootstrap
    else if nat_beq v 4
    then some ack
    else if nat_beq v 5
    then some grant
    else if nat_beq v 6
    then some proposal
    else if nat_beq v 7
    then some routing_receipt
    else none

unfoldable pub may_sign : SignerRole → ArtifactKind → Bool
may_sign device_writer mutation = true
may_sign semantic_authority_issuer mutation = true
may_sign recovery_authority promotion = true
may_sign recovery_authority bootstrap = true
may_sign sync_service ack = true
may_sign grant_authority grant = true
may_sign operator_root grant = true
may_sign proposal_issuer proposal = true
may_sign routing_service routing_receipt = true
may_sign _ _ = false

pub role_u8_injective : (a b : SignerRole) → role_u8 a ≡ role_u8 b → a ≡ b
role_u8_injective a b h = ground arith

pub artifact_to_u8_injective : (a b : ArtifactKind) → artifact_to_u8 a ≡ artifact_to_u8 b → a ≡ b
artifact_to_u8_injective a b h = ground arith

-- The derived `PartialEq` compares discriminants.
pub role_beq_iff : (a b : SignerRole) → (nat_beq (role_u8 a) (role_u8 b) ≡ true) ↔ (a ≡ b)
role_beq_iff a b = ground (arith, role_u8_injective a b)

instance abbrev pub role_eq : PartialEq SignerRole
role_eq = record { eq = λ a b. nat_beq (role_u8 a) (role_u8 b); eq_exact = role_beq_iff }
