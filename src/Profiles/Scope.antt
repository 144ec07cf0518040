-- ===== src/Profiles/Scope.antt =====
-- src/profile_store.rs: identities of profiles and stores, and the path at which a store lives.
-- Identities of devices and actors are the canonical texts of UUIDs.
pub mod Laws
use mnemes.Prelude.{
  ℕ, String, Bool, true, false, ◌&&◌, ◌||◌, not, List, [], ◌∷◌, ◌++◌, length, is_empty, any, all,
  ltb, leb, nat_beq, ◌==◌, ◌!=◌, list_eq, list_beq, if◌then◌else◌, Result, ok, err, ◌>>=◌, ◌>>◌,
  reject_if,
}
use mnemes.Prelude.Bytes.{Bytes}
use mnemes.Prelude.Text.{Text, text, as_bytes, trim, is_control}
use mnemes.Error.{MnemesError, invalid_memory_scope, words, of_field, exceeds, quoting}

abbrev pub Verdict : Type 0
Verdict = Result MnemesError (Unit {0})

abbrev pub max_id_bytes : ℕ
max_id_bytes = 128

abbrev pub max_label_bytes : ℕ
max_label_bytes = 256

abbrev pub max_path_bytes : ℕ
max_path_bytes = 512

unfoldable pub validate_text : Text → String → ℕ → Verdict
validate_text value field max_bytes = do
  reject_if (is_empty value) (invalid_memory_scope (of_field field "cannot be empty"))
  reject_if (ltb max_bytes (length (as_bytes value)))
      (invalid_memory_scope (exceeds field max_bytes))
  reject_if (any is_control value)
      (invalid_memory_scope (of_field field "contains a control character"))

-- `is_ascii_alphanumeric()` or one of `.`, `_`, `-`.
abbrev pub is_id_byte : ℕ → Bool
is_id_byte b =
    (leb 48 b && leb b 57)
    || (leb 65 b && leb b 90)
    || (leb 97 b && leb b 122)
    || nat_beq b 46
    || nat_beq b 95
    || nat_beq b 45

unfoldable pub check_id_bytes : Text → String → Verdict
check_id_bytes value field = reject_if (not (all is_id_byte (as_bytes value))) (
    invalid_memory_scope
      (of_field field "must contain only ASCII letters, digits, '.', '_', or '-'"))

pub record MemoryProfileId : Type 0 where
  pub as_str : Text

unfoldable pub parse_profile_id : Text → Result MnemesError MemoryProfileId
parse_profile_id value = do
  let trimmed = trim value
  validate_text trimmed "profile_id" max_id_bytes
  check_id_bytes trimmed "profile_id"
  ok (record { as_str = trimmed })

abbrev pub profile_root : Text
profile_root = text "memory/profiles/"

-- `/`
abbrev pub separator : ℕ
separator = 47

unfoldable pub canonical_memory_store_relative_path :
    MemoryProfileId → Text → Result MnemesError Text
canonical_memory_store_relative_path profile_id store_id = do
  validate_text store_id "store_id" max_id_bytes
  check_id_bytes store_id "store_id"
  ok (profile_root ++ (profile_id.as_str ++ (separator ∷ store_id)))

pub data MemoryProfileStatus : Type 0 where
  active revoked : MemoryProfileStatus

abbrev pub profile_status_as_str : MemoryProfileStatus → Text
profile_status_as_str active = text "active"
profile_status_as_str revoked = text "revoked"

unfoldable pub parse_profile_status : Text → Result MnemesError MemoryProfileStatus
parse_profile_status value =
    if value == text "active"
    then ok active
    else if value == text "revoked"
    then ok revoked
    else err (invalid_memory_scope (quoting "invalid memory profile status" value))

pub record MemoryProfile : Type 0 where
  pub profile_id : MemoryProfileId
  pub owner_device_id : Text
  pub label : Text
  pub status : MemoryProfileStatus
  pub created_at : Text

unfoldable pub profile_new : MemoryProfileId → Text → Text → Result MnemesError MemoryProfile
profile_new profile_id owner_device_id label = do
  validate_text label "profile label" max_label_bytes
  ok (record {
    profile_id = profile_id;
    owner_device_id = owner_device_id;
    label = label;
    status = active;
    created_at = [];
  })

unfoldable pub profile_validate : MemoryProfile → Verdict
profile_validate p = validate_text p.label "profile label" max_label_bytes

pub data MemoryStoreStatus : Type 0 where
  active quarantined revoked : MemoryStoreStatus

abbrev pub store_status_as_str : MemoryStoreStatus → Text
store_status_as_str active = text "active"
store_status_as_str quarantined = text "quarantined"
store_status_as_str revoked = text "revoked"

unfoldable pub parse_store_status : Text → Result MnemesError MemoryStoreStatus
parse_store_status value =
    if value == text "active"
    then ok active
    else if value == text "quarantined"
    then ok quarantined
    else if value == text "revoked"
    then ok revoked
    else err (invalid_memory_scope (quoting "invalid memory store status" value))

pub record MemoryStoreIdentity : Type 0 where
  pub store_id : Text
  pub profile_id : MemoryProfileId
  pub owner_device_id : Text
  pub namespace : Text
  pub relative_path : Text
  pub status : MemoryStoreStatus
  pub created_at : Text

-- The components between the separators of a path.
abbrev pub extend_first : ℕ → List Text → List Text
extend_first c [] = (c ∷ []) ∷ []
extend_first c (s ∷ ss) = (c ∷ s) ∷ ss

unfoldable pub split_path : Text → List Text
split_path [] = [] ∷ []
split_path (c ∷ path) =
    let rest = split_path path in if nat_beq c separator then [] ∷ rest else extend_first c rest

abbrev pub is_absolute : Text → Bool
is_absolute [] = false
is_absolute (c ∷ path) = nat_beq c separator

-- `Path::components` gives `ParentDir` for a component `..`.
abbrev pub has_parent_dir : Text → Bool
has_parent_dir path = any (λ component. component == text "..") (split_path path)

unfoldable pub check_relative : Text → Verdict
check_relative path =
    reject_if (is_absolute path || has_parent_dir path)
      (invalid_memory_scope (words "relative_path must be relative and may not contain '..'"))

unfoldable pub store_identity_new :
    Text → MemoryProfileId → Text → Text → Text → Result MnemesError MemoryStoreIdentity
store_identity_new store_id profile_id owner_device_id namespace relative_path = do
  validate_text store_id "store_id" max_id_bytes
  validate_text namespace "namespace" max_id_bytes
  validate_text relative_path "relative_path" max_path_bytes
  check_relative relative_path
  expected_path ← canonical_memory_store_relative_path profile_id store_id
  reject_if (relative_path != expected_path) (
      invalid_memory_scope
        (quoting "relative_path must equal the canonical profile store path" expected_path))
  ok (record {
    store_id = store_id;
    profile_id = profile_id;
    owner_device_id = owner_device_id;
    namespace = namespace;
    relative_path = relative_path;
    status = active;
    created_at = [];
  })

unfoldable pub store_identity_validate : MemoryStoreIdentity → Verdict
store_identity_validate s = do
  validate_text s.store_id "store_id" max_id_bytes
  validate_text s.namespace "namespace" max_id_bytes
  validate_text s.relative_path "relative_path" max_path_bytes
  check_relative s.relative_path
  expected_path ← canonical_memory_store_relative_path s.profile_id s.store_id
  reject_if (s.relative_path != expected_path)
      (invalid_memory_scope (words "relative_path does not match the canonical profile store path"))
