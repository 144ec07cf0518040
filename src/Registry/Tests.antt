-- ===== src/Registry/Tests.antt =====
-- The registry at concrete commands.
use mnemes.Prelude.{
  ◌≡◌, refl, inl, true, false, ◌≢◌, some, none, List, [], ◌∷◌, All, Any, all, ltb, length, ◌&&◌,
  ◌⊎◌, ◌^◌, ok, Result, list_beq, arith,
}
use mnemes.Prelude.Bytes.{Bytes}
use mnemes.Prelude.Decimal.{decimal}
use mnemes.Prelude.Sort.{bytes_le, insert_by, sort_by, dedup}
use mnemes.Prelude.Text.{Text, IsText, text, as_bytes, trim, is_whitespace}
use mnemes.Identity.{Device, Actor, human, operator, split_once}
use mnemes.Identity
use mnemes.Profiles.Scope
use mnemes.Profiles.Scope.{
  MemoryProfileId, MemoryProfile, MemoryStoreIdentity, validate_text, check_id_bytes, split_path,
  check_relative, canonical_memory_store_relative_path, store_identity_new, store_identity_validate,
  parse_profile_id, profile_validate,
}
use mnemes.Profiles.Access.{
  MemoryAccessGrant, search, grant_validate, allows, grant_covers, authorize_memory_access,
}
use mnemes.Profiles.Digest.{field_bytes, digest_fields}
use mnemes.Profiles.Digest.Laws.{IsField, HexCollision}
use mnemes.Profiles.Binding.{
  ActorProfileBinding, binding_digest, binding_validate, binding_domain, issuance_fields,
}
use mnemes.Profiles.Binding.Laws.{SameIssuance, binding_digest_binds}
use mnemes.Profiles.Snapshot.{
  AuthorizedMemoryStore, AuthorizationSnapshot, MemoryAccessPermit, join, sorted_ids, sorted_stores,
  store_line, snapshot_expected_digest, snapshot_new, snapshot_validate, permit_new,
}
use mnemes.Prelude.Int.{as_i64}
use mnemes.Registry.{
  Tables, empty_tables, find_row, select, device_row, actor_row, profile_row, store_row,
}
use mnemes.Shards.{shard_state_from}
use mnemes.Registry.Devices.{
  shard_relative_path, insert_device_shard_row, bootstrap, bootstrap_with_tx,
}
use mnemes.Registry.Lifecycle.{
  check_device, register_memory_profile, active_owner, register_memory_store,
}
use mnemes.Registry.Grants.{
  is_active_operator, join_owner, target_store, grantee_owner, grant_to_row, checks, clashes,
  grant_memory_access, is_open_grant, set_revoked, revoke_memory_access, row_to_grant,
  rows_to_grants, memory_grants_for_profile_store, requesting_profile, check_owner, target_identity,
  authorize_store_access,
}
use mnemes.Registry.Bindings.{
  JoinedBinding, actor_device, overlaps, same_key, bind_actor_profile, join_binding, join_all,
  in_force, admit_row, resolve_actor_profile,
}
use mnemes.Registry.Snapshots.{
  is_open_store, min, min_expiry, to_authorized, subject, is_requested, decide_store, admit_store,
  consider, consider_all, saturating_add, admitted_store, at_once, build_authorization_snapshot,
  validate_authorization_snapshot, issue_memory_access_permit,
}
use mnemes.Error.{MnemesError}
use mnemes.Registry.Tokens.{
  verify, parse_parts, parse_authorization_token, token_device_id, actor_of_device,
  authenticate_request,
}
use mnemes.Registry.Tokens.Laws.{IsTokenOf, authenticate-IsTokenOf}
use mnemes.Registry.Commands.{
  Command, boot, add_profile, add_store, grant, revoke_grant, bind, exec, after, run,
}
use mnemes.Registry.Commands.Laws.{run-NoOverlap}
use mnemes.Registry.Commands.Devices.{run-Mirrored}
use mnemes.Registry.Devices.Mirror.{IsMirrored}
use mnemes.Registry.Bindings.Apart.{NoOverlap}
use mnemes.Registry.Bindings.Laws.{IsAdmitted, IsRowFor, resolve-member, resolve-IsAdmitted}
use mnemes.Registry.Grants.Laws.{grant-row_to_grant, revoke-allows}
use mnemes.Registry.Grants.Access.{LetsIn, authorize-LetsIn}
use mnemes.Registry.Snapshots.Admission.{IsAuthorized}
use mnemes.Registry.Snapshots.Laws.{IsCurrent, IsWithin, build-IsAuthorized, issue-IsWithin}

-- A function of 64 characters, in the place of SHA-256 in hexadecimal.
abbrev digest_64 : Text
digest_64 = text "0123456789abcdef0123456789abcdef0123456789abcdef0123456789abcdef"

abbrev sha256_hex : Bytes → Text
sha256_hex bytes = digest_64

abbrev ares : MemoryProfileId
ares = record { as_str = text "ares" }

abbrev hermes : MemoryProfileId
hermes = record { as_str = text "hermes" }

abbrev device : Device
device = record {
  device_id = text "device-1";
  label = text "host";
  platform = text "linux";
  hostname = text "host";
  credential_fingerprint = none;
  first_seen_at = [];
  last_seen_at = [];
  status = Identity.DeviceStatus.active;
}

abbrev profile_of : MemoryProfileId → MemoryProfile
profile_of id = record {
  profile_id = id;
  owner_device_id = text "device-1";
  label = text "profile";
  status = Scope.MemoryProfileStatus.active;
  created_at = [];
}

abbrev notes : MemoryStoreIdentity
notes = record {
  store_id = text "notes";
  profile_id = hermes;
  owner_device_id = text "device-1";
  namespace = text "private";
  relative_path = text "memory/profiles/hermes/notes";
  status = Scope.MemoryStoreStatus.active;
  created_at = [];
}

abbrev ares_may_search : MemoryAccessGrant
ares_may_search = record {
  grant_id = text "grant-1";
  grantee_profile_id = ares;
  store_id = text "notes";
  namespace = text "private";
  effect = search;
  issued_by_actor_id = text "actor-1";
  valid_from = 10;
  expires_at = 50;
  revoked_at = none;
  created_at = [];
}

abbrev binding : ActorProfileBinding
binding = record {
  binding_id = text "binding-1";
  actor_id = text "actor-1";
  profile_id = ares;
  owner_device_id = text "device-1";
  issued_by_actor_id = text "actor-1";
  valid_from = 10;
  expires_at = 100;
  revoked_at = none;
  binding_epoch = 1;
  binding_digest = digest_64;
  recorded_at = [];
}

abbrev first_commands : List (Text × Command)
first_commands =
    ([], boot (text "fingerprint") (text "actor-1") device human)
    ∷ ([], add_profile (profile_of ares))
    ∷ ([], add_profile (profile_of hermes))
    ∷ ([], add_store notes)
    ∷ []

abbrev commands : List (Text × Command)
commands =
    ([], boot (text "fingerprint") (text "actor-1") device human)
    ∷ ([], add_profile (profile_of ares))
    ∷ ([], add_profile (profile_of hermes))
    ∷ ([], add_store notes)
    ∷ ([], grant ares_may_search)
    ∷ ([], bind binding)
    ∷ []

abbrev before : Tables
before = run sha256_hex first_commands empty_tables

abbrev stored : Tables
stored = run sha256_hex commands empty_tables

opened : Unit {0}
unfolding list_beq as_bytes trim is_whitespace decimal bytes_le insert_by sort_by validate_text
    check_id_bytes split_path check_relative canonical_memory_store_relative_path store_identity_new
    store_identity_validate parse_profile_id profile_validate grant_validate allows grant_covers
    authorize_memory_access field_bytes digest_fields binding_digest binding_validate dedup join
    sorted_ids sorted_stores store_line snapshot_expected_digest snapshot_new snapshot_validate
    permit_new find_row select device_row actor_row profile_row store_row as_i64 shard_state_from
    shard_relative_path insert_device_shard_row bootstrap bootstrap_with_tx check_device
    register_memory_profile active_owner register_memory_store is_active_operator join_owner
    target_store grantee_owner grant_to_row checks clashes grant_memory_access is_open_grant
    set_revoked revoke_memory_access row_to_grant rows_to_grants memory_grants_for_profile_store
    requesting_profile check_owner target_identity authorize_store_access actor_device overlaps
    same_key bind_actor_profile join_binding join_all in_force admit_row resolve_actor_profile
    is_open_store min min_expiry to_authorized subject is_requested decide_store admit_store
    consider consider_all saturating_add admitted_store build_authorization_snapshot
    validate_authorization_snapshot issue_memory_access_permit exec run
opened = tt

resolved : resolve_actor_profile sha256_hex (text "actor-1") 20 stored ≡ ok binding
unfolding opened
resolved = refl

let_in : authorize_store_access ares (text "notes") (text "private") search 20 stored ≡ ok tt
unfolding opened
let_in = refl

abbrev admitted_notes : AuthorizedMemoryStore
admitted_notes = record {
  store_id = text "notes";
  profile_id = hermes;
  owner_device_id = text "device-1";
  namespace = text "private";
  relative_path = text "memory/profiles/hermes/notes";
  grant_ids = text "grant-1" ∷ [];
  authorization_expires_at = 50;
}

abbrev snapshot : AuthorizationSnapshot
snapshot = record {
  authorization_snapshot_id = text "snapshot-1";
  actor_id = text "actor-1";
  actor_device_id = text "device-1";
  subject_profile_id = ares;
  binding_id = text "binding-1";
  binding_digest = digest_64;
  effect = search;
  namespaces = [];
  authorized_stores = admitted_notes ∷ [];
  evaluated_at = 20;
  policy_version = text "mnemes.profile-authz.v1";
  snapshot_digest = digest_64;
}

abbrev permit : MemoryAccessPermit
permit = record {
  permit_id = text "permit-1";
  subject_profile_id = ares;
  actor_id = text "actor-1";
  actor_device_id = text "device-1";
  store_id = text "notes";
  namespace = text "private";
  effect = search;
  grant_ids = text "grant-1" ∷ [];
  authorization_snapshot_id = text "snapshot-1";
  authorization_snapshot_digest = digest_64;
  issued_at = 20;
  expires_at = 50;
  query_budget = 5;
  policy_version = text "mnemes.profile-authz.v1";
  permit_digest = digest_64;
}

built :
    build_authorization_snapshot sha256_hex
      (text "snapshot-1")
      (text "actor-1")
      search
      []
      20
      (at_once stored)
    ≡ ok snapshot
unfolding opened
built = refl

issued :
    issue_memory_access_permit sha256_hex
      (text "snapshot-2")
      (text "permit-1")
      snapshot
      (text "notes")
      (text "private")
      20
      5
      (at_once stored)
    ≡ ok permit
unfolding opened
issued = refl

-- The budget is at most 100 queries.
over_budget :
    issue_memory_access_permit sha256_hex
      (text "snapshot-2")
      (text "permit-1")
      snapshot
      (text "notes")
      (text "private")
      20
      101
      (at_once stored)
    ≢ ok permit
unfolding opened
over_budget h = cc

nothing_overlaps : NoOverlap []
unfolding NoOverlap
nothing_overlaps = tt

run-NoOverlap_example : NoOverlap stored.actor_profile_bindings
run-NoOverlap_example = run-NoOverlap sha256_hex commands empty_tables nothing_overlaps

run-Mirrored_example : IsMirrored stored.devices stored.device_shards
run-Mirrored_example =
    run-Mirrored sha256_hex commands empty_tables (record { each_device = tt; each_shard = tt })

apart : NoOverlap stored.actor_profile_bindings
apart = run-NoOverlap sha256_hex commands empty_tables nothing_overlaps

member : Any (λ c. c ≡ binding) stored.actor_profile_bindings
unfolding opened
member = inl refl

row : JoinedBinding
row = record {
  binding = binding;
  device_id = text "device-1";
  device_status = Identity.DeviceStatus.active;
  profile_owner = text "device-1";
  profile_status = Scope.MemoryProfileStatus.active;
  owner_status = Identity.DeviceStatus.active;
}

joined : join_binding stored binding ≡ some row
unfolding opened row
joined = refl

resolve-member_example :
    resolve_actor_profile sha256_hex (text "actor-1") 20 stored ≡ admit_row sha256_hex row
resolve-member_example =
    resolve-member sha256_hex stored binding row 20 apart member
      (record { actor = refl; live = refl; begun = omega arith; running = omega arith }) joined
      (omega arith)

resolve-IsAdmitted_example :
    (row : JoinedBinding) × IsRowFor stored (text "actor-1") 20 row
    × IsAdmitted sha256_hex row binding
resolve-IsAdmitted_example =
    resolve-IsAdmitted sha256_hex stored (text "actor-1") 20 binding apart resolved

build-IsAuthorized_example :
    (b : ActorProfileBinding) × (resolve_actor_profile sha256_hex (text "actor-1") 20 stored ≡ ok b)
    × (snapshot.subject_profile_id ≡ b.profile_id)
    × (snapshot.binding_digest ≡ b.binding_digest)
    × (snapshot.evaluated_at ≡ 20)
    × All (IsAuthorized (at_once stored) b search [] 20) snapshot.authorized_stores
build-IsAuthorized_example =
    build-IsAuthorized sha256_hex (text "snapshot-1") (text "actor-1") search [] 20 (at_once stored)
      snapshot apart built

issue-IsWithin_example :
    IsCurrent sha256_hex (text "snapshot-2") snapshot 20 (at_once stored)
    × IsWithin snapshot (text "notes") (text "private") 20 5 permit
issue-IsWithin_example =
    issue-IsWithin sha256_hex (text "snapshot-2") (text "permit-1") snapshot (text "notes")
      (text "private") 20 5 (at_once stored) permit issued

authorize-LetsIn_example : LetsIn stored ares (text "notes") (text "private") search 20
authorize-LetsIn_example =
    authorize-LetsIn stored ares (text "notes") (text "private") search 20 let_in

abbrev granted : Tables
granted = after sha256_hex before (exec sha256_hex [] (grant ares_may_search) before)

grants : grant_memory_access [] ares_may_search before ≡ ok (text "grant-1", granted)
unfolding opened
grants = refl

parsed : parse_profile_id (text "ares") ≡ ok ares
unfolding opened
parsed = refl

grant-row_to_grant_example :
    (granted.memory_access_grants ≡ grant_to_row [] ares_may_search ∷ before.memory_access_grants)
    × (row_to_grant (grant_to_row [] ares_may_search) ≡ ok ares_may_search)
grant-row_to_grant_example =
    grant-row_to_grant [] ares_may_search before granted (text "grant-1")
      (record { from = omega arith; to = omega arith; revoked = λ t e. cc }) parsed grants

abbrev closed : Tables
closed = after sha256_hex stored (exec sha256_hex [] (revoke_grant (text "grant-1") 30) stored)

closes : revoke_memory_access (text "grant-1") 30 stored ≡ ok (tt, closed)
unfolding opened
closes = refl

abbrev closed_grant : MemoryAccessGrant
closed_grant = record ares_may_search { revoked_at = some 30 }

reads : memory_grants_for_profile_store ares (text "notes") closed ≡ ok (closed_grant ∷ [])
unfolding opened
reads = refl

revoke-allows_example :
    All
      (λ g. g.grant_id ≡ text "grant-1" → allows g search (text "private") 20 ≡ false)
      (closed_grant ∷ [])
revoke-allows_example =
    revoke-allows (text "grant-1") 30 stored closed ares (text "notes") (closed_grant ∷ []) search
      (text "private") 20 closes reads

-- Ranges of concrete texts, by computation.
chars : (t : Text) → all (λ c. ltb c 0x110000) t ≡ true → IsText t
chars [] h = tt
chars (c ∷ t) h = (ground arith, chars t (ground arith))

fields :
    (ts : List Text)
    → all (λ t. all (λ c. ltb c 0x110000) t && ltb (length (as_bytes t)) (2 ^ 64)) ts ≡ true
    → All IsField ts
fields [] h = tt
fields (t ∷ ts) h =
    (record { chars = chars t (ground arith); fits = ground arith }, fields ts (ground arith))

issuance : All IsField (binding_domain ∷ issuance_fields binding)
unfolding opened
issuance = fields (binding_domain ∷ issuance_fields binding) refl

binding_valid : binding_validate sha256_hex binding ≡ ok tt
unfolding opened
binding_valid = refl

abbrev ended : ActorProfileBinding
ended = record binding { revoked_at = some 50; recorded_at = text "later" }

ended_valid : binding_validate sha256_hex ended ≡ ok tt
unfolding opened
ended_valid = refl

binding_digest_binds_example : SameIssuance binding ended ⊎ HexCollision sha256_hex
binding_digest_binds_example =
    binding_digest_binds sha256_hex binding ended issuance issuance binding_valid ended_valid refl

abbrev with_token : Tables
with_token =
    run sha256_hex
      ((
        [],
        boot (text "sha256:0123456789abcdef0123456789abcdef0123456789abcdef0123456789abcdef")
            (text "actor-1") device human,
      )
        ∷ [])
      empty_tables

abbrev parse_any : Text → Result MnemesError Text
parse_any value = ok value

abbrev known_device : Device
known_device = record device {
  credential_fingerprint =
      some (text "sha256:0123456789abcdef0123456789abcdef0123456789abcdef0123456789abcdef");
}

abbrev first_operator : Actor
first_operator = record {
  actor_id = text "actor-1";
  device_id = text "device-1";
  tool_profile = operator;
  actor_kind = human;
  provider_model = none;
  recorded_at = [];
}

authenticated :
    authenticate_request sha256_hex parse_any
      (text "device-1:secret")
      (some (text "actor-1"))
      with_token
      with_token
      with_token
    ≡ ok (known_device, some first_operator)
unfolding opened split_once verify parse_parts parse_authorization_token token_device_id
    actor_of_device authenticate_request
authenticated = refl

authenticate-IsTokenOf_example :
    IsTokenOf sha256_hex parse_any with_token with_token (text "device-1:secret") known_device
    × ((actor : Actor)
        → some first_operator ≡ some actor
        → (key : Text) × (some (text "actor-1") ≡ some key)
          × (actor_row with_token key ≡ some actor)
          × (actor.device_id ≡ text "device-1"))
authenticate-IsTokenOf_example =
    authenticate-IsTokenOf sha256_hex parse_any (text "device-1:secret") (some (text "actor-1"))
      with_token with_token with_token known_device (some first_operator) authenticated
