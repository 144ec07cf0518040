-- ===== src/Profiles/Snapshot/Laws.antt =====
-- src/profile_store.rs: a new snapshot validates.
use mnemes.Prelude.{ℕ, ◌≡◌, refl, List, ok, list_eq, reject_ne_iff, then_iff}
use mnemes.Prelude.Bytes.{Bytes}
use mnemes.Prelude.Text.{Text}
use mnemes.Profiles.Access.{MemoryAccessEffect}
use mnemes.Profiles.Binding.{ActorProfileBinding}
use mnemes.Profiles.Snapshot.{
  AuthorizedMemoryStore, policy_version, snapshot_new, snapshot_validate, snapshot_expected_digest,
}

pub snapshot_validate-snapshot_new :
    (sha256_hex : Bytes → Text) (id : Text) (b : ActorProfileBinding) (effect : MemoryAccessEffect)
    (namespaces : List Text) (stores : List AuthorizedMemoryStore) (at : ℕ)
    → snapshot_validate sha256_hex (snapshot_new sha256_hex id b effect namespaces stores at)
      ≡ ok tt
unfolding snapshot_new snapshot_validate snapshot_expected_digest
snapshot_validate-snapshot_new sha256_hex id b effect namespaces stores at =
    (then_iff _ _ (reject_ne_iff policy_version policy_version _)
        (reject_ne_iff {A = Text} _ _ _)).1
      (refl, refl)
