-- ===== src/Profiles/Snapshot.antt =====
-- src/profile_store.rs: the snapshot of what an actor may access at one time, and the permits that are
-- derived from it. Identities and the texts of random UUIDs are arguments.
pub mod Laws
use mnemes.Prelude.{
  ℕ, ◌+◌, Bool, true, false, ◌||◌, List, [], ◌∷◌, ◌++◌, map, leb, ltb, ◌==◌, ◌!=◌, nat_eq, list_eq,
  if◌then◌else◌, Result, ok, err, ◌>>=◌, ◌>>◌, reject_if,
}
use mnemes.Prelude.Bytes.{Bytes}
use mnemes.Prelude.Text.{Text, text, as_bytes}
use mnemes.Prelude.Decimal.{decimal}
use mnemes.Prelude.Sort.{sort_by, text_le, dedup}
use mnemes.Error.{MnemesError, authorization_snapshot_invalid, words, exceeds}
use mnemes.Profiles.Scope.{Verdict, MemoryProfileId}
use mnemes.Profiles.Access.{MemoryAccessEffect, effect_as_str}
use mnemes.Profiles.Digest.{digest_fields}
use mnemes.Profiles.Binding.{ActorProfileBinding}

abbrev pub policy_version : Text
policy_version = text "mnemes.profile-authz.v1"

abbrev pub snapshot_domain : Text
snapshot_domain = text "mnemes.authorization-snapshot.v1"

abbrev pub max_permit_query_budget : ℕ
max_permit_query_budget = 100

pub record AuthorizedMemoryStore : Type 0 where
  pub store_id : Text
  pub profile_id : MemoryProfileId
  pub owner_device_id : Text
  pub namespace : Text
  pub relative_path : Text
  pub grant_ids : List Text
  pub authorization_expires_at : ℕ  -- u64

pub record AuthorizationSnapshot : Type 0 where
  pub authorization_snapshot_id : Text
  pub actor_id : Text
  pub actor_device_id : Text
  pub subject_profile_id : MemoryProfileId
  pub binding_id : Text
  pub binding_digest : Text
  pub effect : MemoryAccessEffect
  pub namespaces : List Text
  pub authorized_stores : List AuthorizedMemoryStore
  pub evaluated_at : ℕ  -- u64
  pub policy_version : Text
  pub snapshot_digest : Text

-- `[String]::join`.
unfoldable pub join : Text → List Text → Text
join separator [] = []
join separator (x ∷ []) = x
join separator (x ∷ y ∷ xs) = x ++ (separator ++ join separator (y ∷ xs))

unfoldable pub sorted_ids : List Text → List Text
sorted_ids ids = dedup (sort_by text_le ids)

abbrev pub with_sorted_grants : AuthorizedMemoryStore → AuthorizedMemoryStore
with_sorted_grants s = record s { grant_ids = sorted_ids s.grant_ids }

unfoldable pub sorted_stores : List AuthorizedMemoryStore → List AuthorizedMemoryStore
sorted_stores stores =
    map with_sorted_grants (sort_by (λ left right. text_le left.store_id right.store_id) stores)

-- The line of one store in the digest.
unfoldable pub store_line : AuthorizedMemoryStore → Text
store_line s =
    s.store_id
    ++ (text "|"
        ++ (s.profile_id.as_str
            ++ (text "|"
                ++ (s.owner_device_id
                    ++ (text "|"
                        ++ (s.namespace
                            ++ (text "|"
                                ++ (s.relative_path
                                    ++ (text "|"
                                        ++ (join (text ",") s.grant_ids
                                            ++ (text "|"
                                                ++ decimal s.authorization_expires_at)))))))))))

abbrev pub snapshot_fields : AuthorizationSnapshot → List Text
snapshot_fields s =
    s.actor_id
    ∷ s.actor_device_id
    ∷ s.subject_profile_id.as_str
    ∷ s.binding_id
    ∷ s.binding_digest
    ∷ effect_as_str s.effect
    ∷ join (text ",") s.namespaces
    ∷ join (text "\n") (map store_line s.authorized_stores)
    ∷ decimal s.evaluated_at
    ∷ s.policy_version
    ∷ []

pub record MemoryAccessPermit : Type 0 where
  pub permit_id : Text
  pub subject_profile_id : MemoryProfileId
  pub actor_id : Text
  pub actor_device_id : Text
  pub store_id : Text
  pub namespace : Text
  pub effect : MemoryAccessEffect
  pub grant_ids : List Text
  pub authorization_snapshot_id : Text
  pub authorization_snapshot_digest : Text
  pub issued_at : ℕ  -- u64
  pub expires_at : ℕ  -- u64
  pub query_budget : ℕ  -- usize
  pub policy_version : Text
  pub permit_digest : Text

abbrev pub permit_fields : MemoryAccessPermit → List Text
permit_fields p =
    p.subject_profile_id.as_str
    ∷ p.actor_id
    ∷ p.actor_device_id
    ∷ p.store_id
    ∷ p.namespace
    ∷ effect_as_str p.effect
    ∷ join (text ",") p.grant_ids
    ∷ p.authorization_snapshot_digest
    ∷ decimal p.issued_at
    ∷ decimal p.expires_at
    ∷ decimal p.query_budget
    ∷ p.policy_version
    ∷ []

module _ (sha256_hex : Bytes → Text) where
  unfoldable pub snapshot_expected_digest : AuthorizationSnapshot → Text
  snapshot_expected_digest s = digest_fields sha256_hex snapshot_domain (snapshot_fields s)

  unfoldable pub snapshot_new :
      (snapshot_id : Text) (binding : ActorProfileBinding) (effect : MemoryAccessEffect)
      (namespaces : List Text) (authorized_stores : List AuthorizedMemoryStore) (evaluated_at : ℕ)
      → AuthorizationSnapshot
  snapshot_new snapshot_id binding effect namespaces authorized_stores evaluated_at =
      let blank : AuthorizationSnapshot = record {
        authorization_snapshot_id = snapshot_id;
        actor_id = binding.actor_id;
        actor_device_id = binding.owner_device_id;
        subject_profile_id = binding.profile_id;
        binding_id = binding.binding_id;
        binding_digest = binding.binding_digest;
        effect = effect;
        namespaces = sorted_ids namespaces;
        authorized_stores = sorted_stores authorized_stores;
        evaluated_at = evaluated_at;
        policy_version = policy_version;
        snapshot_digest = [];
      } in
      record blank { snapshot_digest = snapshot_expected_digest blank }

  unfoldable pub snapshot_validate : AuthorizationSnapshot → Verdict
  snapshot_validate s = do
    reject_if (s.policy_version != policy_version)
        (authorization_snapshot_invalid (words "unsupported authorization policy version"))
    reject_if (s.snapshot_digest != snapshot_expected_digest s) (
        authorization_snapshot_invalid
          (words "snapshot digest does not match its authorization material"))

  unfoldable pub permit_new :
      (permit_id : Text) (snapshot : AuthorizationSnapshot) (store : AuthorizedMemoryStore)
      (issued_at expires_at query_budget : ℕ)
      → Result MnemesError MemoryAccessPermit
  permit_new permit_id snapshot store issued_at expires_at query_budget = do
    reject_if (leb expires_at issued_at)
        (authorization_snapshot_invalid (words "permit expires_at must be after issued_at"))
    reject_if (query_budget == 0 || ltb max_permit_query_budget query_budget) (
        authorization_snapshot_invalid
          (exceeds "query budget must be within 1..=" max_permit_query_budget))
    let blank : MemoryAccessPermit = record {
      permit_id = permit_id;
      subject_profile_id = snapshot.subject_profile_id;
      actor_id = snapshot.actor_id;
      actor_device_id = snapshot.actor_device_id;
      store_id = store.store_id;
      namespace = store.namespace;
      effect = snapshot.effect;
      grant_ids = sort_by text_le store.grant_ids;
      authorization_snapshot_id = snapshot.authorization_snapshot_id;
      authorization_snapshot_digest = snapshot.snapshot_digest;
      issued_at = issued_at;
      expires_at = expires_at;
      query_budget = query_budget;
      policy_version = snapshot.policy_version;
      permit_digest = [];
    }
    ok (record blank {
      permit_digest =
          digest_fields sha256_hex (text "mnemes.memory-access-permit.v1") (permit_fields blank);
    })
