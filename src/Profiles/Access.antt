-- ===== src/Profiles/Access.antt =====
-- src/profile_store.rs: grants, and the decision whether a profile may access a store.
pub mod Laws
use mnemes.Prelude.{
  ℕ, Bool, true, false, ◌&&◌, ◌||◌, not, ◌≡◌, ◌↔◌, refl, arith, Option, none, some, List, [], ◌∷◌,
  any, ltb, leb, ◌==◌, ◌!=◌, list_eq, list_beq, PartialEq, if◌then◌else◌, Result, ok, err, ◌>>=◌,
  ◌>>◌, reject_if,
}
use mnemes.Prelude.Text.{Text, text}
use mnemes.Error.{MnemesError, memory_grant_denied, invalid_memory_scope, words, quoting}
use mnemes.Profiles.Scope
use mnemes.Profiles.Scope.{
  Verdict, MemoryProfileId, MemoryProfile, MemoryProfileStatus, MemoryStoreIdentity,
  MemoryStoreStatus, max_id_bytes, validate_text,
}

pub data MemoryAccessEffect : Type 0 where
  search read write : MemoryAccessEffect

abbrev pub effect_as_str : MemoryAccessEffect → Text
effect_as_str search = text "search"
effect_as_str read = text "read"
effect_as_str write = text "write"

unfoldable pub parse_effect : Text → Result MnemesError MemoryAccessEffect
parse_effect value =
    if value == text "search"
    then ok search
    else if value == text "read"
    then ok read
    else if value == text "write"
    then ok write
    else err (invalid_memory_scope (quoting "invalid memory access effect" value))

abbrev pub effect_beq : MemoryAccessEffect → MemoryAccessEffect → Bool
effect_beq search search = true
effect_beq read read = true
effect_beq write write = true
effect_beq _ _ = false

pub effect_beq_iff : (a b : MemoryAccessEffect) → (effect_beq a b ≡ true) ↔ (a ≡ b)
effect_beq_iff a b = ground arith

instance abbrev pub effect_eq : PartialEq MemoryAccessEffect
effect_eq = record { eq = effect_beq; eq_exact = effect_beq_iff }

abbrev pub is_active_profile : MemoryProfileStatus → Bool
is_active_profile MemoryProfileStatus.active = true
is_active_profile MemoryProfileStatus.revoked = false

abbrev pub is_active_store : MemoryStoreStatus → Bool
is_active_store MemoryStoreStatus.active = true
is_active_store _ = false

pub record MemoryAccessGrant : Type 0 where
  pub grant_id : Text
  pub grantee_profile_id : MemoryProfileId
  pub store_id : Text
  pub namespace : Text
  pub effect : MemoryAccessEffect
  pub issued_by_actor_id : Text
  pub valid_from : ℕ  -- u64
  pub expires_at : ℕ  -- u64
  pub revoked_at : Option ℕ  -- u64
  pub created_at : Text

abbrev pub is_none {ℓ} : {A : Type ℓ} → Option A → Bool
is_none none = true
is_none (some a) = false

-- `is_some_and(|value| value < valid_from)`
abbrev pub precedes : Option ℕ → ℕ → Bool
precedes none valid_from = false
precedes (some value) valid_from = ltb value valid_from

unfoldable pub grant_validate : MemoryAccessGrant → Verdict
grant_validate g = do
  validate_text g.store_id "store_id" max_id_bytes
  validate_text g.namespace "namespace" max_id_bytes
  reject_if (leb g.expires_at g.valid_from)
      (invalid_memory_scope (words "grant expires_at must be after valid_from"))
  reject_if (precedes g.revoked_at g.valid_from)
      (invalid_memory_scope (words "grant revoked_at cannot precede valid_from"))

unfoldable pub allows : MemoryAccessGrant → MemoryAccessEffect → Text → ℕ → Bool
allows g effect namespace at =
    is_none g.revoked_at
    && g.effect == effect
    && g.namespace == namespace
    && leb g.valid_from at
    && ltb at g.expires_at

-- The test of one grant in the search through them.
unfoldable pub grant_covers :
    MemoryProfileId → MemoryStoreIdentity → MemoryAccessEffect → Text → ℕ → MemoryAccessGrant → Bool
grant_covers requester store effect namespace at g =
    g.grantee_profile_id.as_str == requester.as_str
    && g.store_id == store.store_id
    && allows g effect namespace at

unfoldable pub authorize_memory_access :
    MemoryProfileId
    → MemoryProfile
    → MemoryStoreIdentity
    → List MemoryAccessGrant
    → MemoryAccessEffect
    → Text
    → ℕ
    → Verdict
authorize_memory_access requester profile store grants effect namespace at = do
  reject_if (profile.profile_id.as_str != requester.as_str) (
      memory_grant_denied
        (words "requesting profile identity does not match the authorization subject"))
  reject_if (not (is_active_profile profile.status))
      (memory_grant_denied (words "requesting profile is not active"))
  reject_if (not (is_active_store store.status))
      (memory_grant_denied (words "target store is not active"))
  reject_if (store.namespace != namespace)
      (memory_grant_denied (words "requested namespace is not the store namespace"))
  if store.profile_id.as_str == requester.as_str
        || any (grant_covers requester store effect namespace at) grants
      then ok tt
      else err (
          memory_grant_denied (
            words
              "no active grant covers the requested profile, store, namespace, effect, and time"))
