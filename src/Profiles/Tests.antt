-- ===== src/Profiles/Tests.antt =====
-- The access decision at concrete profiles, stores and grants.
use mnemes.Prelude.{none, ◌≡◌, refl, ◌↔◌, ◌≢◌, none, [], ◌∷◌, ok, list_beq}
use mnemes.Prelude.Text.{text, as_bytes, trim, is_whitespace}
use mnemes.Profiles.Scope.{
  MemoryProfileId, MemoryProfile, MemoryProfileStatus, MemoryStoreIdentity, validate_text,
  check_id_bytes, split_path, check_relative, canonical_memory_store_relative_path,
  store_identity_new, store_identity_validate, parse_profile_id,
}
use mnemes.Profiles.Scope.Laws.{canonical_path_injective}
use mnemes.Profiles.Scope.Laws.Identity.{fresh_identity, store_identity_new_iff}
use mnemes.Profiles.Access.{
  grant_validate, MemoryAccessGrant, search, allows, grant_covers, authorize_memory_access,
}
use mnemes.Profiles.Access.Laws.{MayAccess, authorize_memory_access_iff}

abbrev requester : MemoryProfileId
requester = record { as_str = text "ares" }

abbrev host : MemoryProfileId
host = record { as_str = text "hermes" }

abbrev profile : MemoryProfile
profile = record {
  profile_id = requester;
  owner_device_id = text "device-1";
  label = text "Ares";
  status = MemoryProfileStatus.active;
  created_at = [];
}

abbrev store : MemoryStoreIdentity
store =
    fresh_identity (text "notes") host (text "device-1") (text "private")
      (text "memory/profiles/hermes/notes")

abbrev grant : MemoryAccessGrant
grant = record {
  grant_id = text "grant-1";
  grantee_profile_id = requester;
  store_id = text "notes";
  namespace = text "private";
  effect = search;
  issued_by_actor_id = text "actor-1";
  valid_from = 10;
  expires_at = 20;
  revoked_at = none;
  created_at = [];
}

opened : Unit {0}
unfolding list_beq as_bytes trim is_whitespace validate_text check_id_bytes split_path
    check_relative canonical_memory_store_relative_path store_identity_new store_identity_validate
    parse_profile_id allows grant_covers authorize_memory_access
opened = tt

granted :
    authorize_memory_access requester profile store (grant ∷ []) search (text "private") 10 ≡ ok tt
unfolding opened
granted = refl

expired :
    authorize_memory_access requester profile store (grant ∷ []) search (text "private") 20 ≢ ok tt
unfolding opened
expired e = cc

made :
    store_identity_new
      (text "notes")
      host
      (text "device-1")
      (text "private")
      (text "memory/profiles/hermes/notes")
    ≡ ok store
unfolding opened
made = refl

-- A store named by one dot lives in the directory of its profile.
dotted :
    store_identity_validate (
      fresh_identity
        (text ".")
        host
        (text "device-1")
        (text "private")
        (text "memory/profiles/hermes/."))
    ≡ ok tt
unfolding opened
dotted = refl

parsed : parse_profile_id (text " hermes ") ≡ ok host
unfolding opened
parsed = refl

path_made :
    canonical_memory_store_relative_path host (text "notes")
    ≡ ok (text "memory/profiles/hermes/notes")
unfolding opened
path_made = refl

authorize_memory_access_iff_example :
    (authorize_memory_access requester profile store (grant ∷ []) search (text "private") 10
      ≡ ok tt)
    ↔ MayAccess requester profile store (grant ∷ []) search (text "private") 10
authorize_memory_access_iff_example =
    authorize_memory_access_iff requester profile store (grant ∷ []) search (text "private") 10

canonical_path_injective_example : (host ≡ host) × (text "notes" ≡ text "notes")
canonical_path_injective_example =
    canonical_path_injective (text " hermes ") (text " hermes ") (text "notes") (text "notes")
      parsed parsed path_made path_made

store_identity_new_iff_example :
    (store_identity_new
        (text "notes")
        host
        (text "device-1")
        (text "private")
        (text "memory/profiles/hermes/notes")
      ≡ ok store)
    ↔ ((store_identity_validate store ≡ ok tt) × (store ≡ store))
store_identity_new_iff_example =
    store_identity_new_iff (text "notes") host (text "device-1") (text "private")
      (text "memory/profiles/hermes/notes") store

valid : grant_validate grant ≡ ok tt
unfolding opened grant_validate
valid = refl
