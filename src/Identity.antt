-- ===== src/Identity.antt =====
-- src/types.rs: devices, actors, and the references and edge types of provenance. Identities of
-- devices and actors are texts: the canonical text of a UUID, which the crate uuid makes and parses.
pub mod Laws
mod Tests
use mnemes.Prelude.{
  ℕ, String, Bool, true, false, ◌==◌, list_eq, list_beq, Option, none, some, List, [], ◌∷◌, ◌++◌,
  nat_beq, is_empty, ◌||◌, if◌then◌else◌, Result, ok, err, ◌>>=◌, ◌>>◌, reject_if,
}
use mnemes.Prelude.Text.{Text, text, trim}
use mnemes.Error.{MnemesError, invalid_provenance, words, quoting}

-- `MemoryError::CorruptData`: the table, the row, and the value that is no code.
pub record CorruptData : Type 0 where
  pub table : String
  pub row_id : Text
  pub detail : Text

pub data DeviceStatus : Type 0 where
  active revoked quarantined : DeviceStatus

abbrev pub device_status_as_str : DeviceStatus → Text
device_status_as_str active = text "active"
device_status_as_str revoked = text "revoked"
device_status_as_str quarantined = text "quarantined"

unfoldable pub parse_device_status : Text → Text → Result CorruptData DeviceStatus
parse_device_status value row_id =
    if value == text "active"
    then ok active
    else if value == text "revoked"
    then ok revoked
    else if value == text "quarantined"
    then ok quarantined
    else err (record { table = "devices"; row_id = row_id; detail = value })

pub data ToolProfile : Type 0 where
  agent operator : ToolProfile

abbrev pub tool_profile_as_str : ToolProfile → Text
tool_profile_as_str agent = text "agent"
tool_profile_as_str operator = text "operator"

unfoldable pub parse_tool_profile : Text → Option ToolProfile
parse_tool_profile value =
    if value == text "agent"
    then some agent
    else if value == text "operator"
    then some operator
    else none

abbrev pub is_full : ToolProfile → Bool
is_full agent = false
is_full operator = true

pub data ActorKind : Type 0 where
  human hermes codex ollama service plugin process : ActorKind
  unknown : Text → ActorKind

abbrev pub actor_kind_as_str : ActorKind → Text
actor_kind_as_str human = text "human"
actor_kind_as_str hermes = text "hermes"
actor_kind_as_str codex = text "codex"
actor_kind_as_str ollama = text "ollama"
actor_kind_as_str service = text "service"
actor_kind_as_str plugin = text "plugin"
actor_kind_as_str process = text "process"
actor_kind_as_str (unknown value) = value

unfoldable pub parse_actor_kind : Text → ActorKind
parse_actor_kind value =
    if value == text "human"
    then human
    else if value == text "hermes"
    then hermes
    else if value == text "codex"
    then codex
    else if value == text "ollama"
    then ollama
    else if value == text "service"
    then service
    else if value == text "plugin"
    then plugin
    else if value == text "process"
    then process
    else unknown value

pub record Device : Type 0 where
  pub device_id : Text
  pub label : Text
  pub platform : Text
  pub hostname : Text
  pub credential_fingerprint : Option Text
  pub first_seen_at : Text
  pub last_seen_at : Text
  pub status : DeviceStatus

pub record Actor : Type 0 where
  pub actor_id : Text
  pub device_id : Text
  pub tool_profile : ToolProfile
  pub actor_kind : ActorKind
  pub provider_model : Option Text
  pub recorded_at : Text

pub data ProvenanceEdgeType : Type 0 where
  observed_by recorded_by derived_from supports contradicts supersedes retrieved_from :
      ProvenanceEdgeType

abbrev pub edge_type_as_str : ProvenanceEdgeType → Text
edge_type_as_str observed_by = text "observed_by"
edge_type_as_str recorded_by = text "recorded_by"
edge_type_as_str derived_from = text "derived_from"
edge_type_as_str supports = text "supports"
edge_type_as_str contradicts = text "contradicts"
edge_type_as_str supersedes = text "supersedes"
edge_type_as_str retrieved_from = text "retrieved_from"

unfoldable pub parse_edge_type : Text → Text → Result CorruptData ProvenanceEdgeType
parse_edge_type value row_id =
    if value == text "observed_by"
    then ok observed_by
    else if value == text "recorded_by"
    then ok recorded_by
    else if value == text "derived_from"
    then ok derived_from
    else if value == text "supports"
    then ok supports
    else if value == text "contradicts"
    then ok contradicts
    else if value == text "supersedes"
    then ok supersedes
    else if value == text "retrieved_from"
    then ok retrieved_from
    else err (record { table = "provenance_edges"; row_id = row_id; detail = value })

pub record MemoryItemRef : Type 0 where
  pub kind : Text
  pub id : Text

unfoldable pub item_ref_new : Text → Text → Result MnemesError MemoryItemRef
item_ref_new kind id = do
  reject_if (is_empty (trim kind)) (invalid_provenance (words "memory item kind cannot be empty"))
  reject_if (is_empty (trim id)) (invalid_provenance (words "memory item id cannot be empty"))
  ok (record { kind = kind; id = id })

-- `:`
abbrev pub colon : ℕ
colon = 58

-- `splitn(2, ':')`: what stands before the first colon, and what after it, if there is one. There is
-- no third part.
unfoldable pub split_once : Text → Text × Option Text
split_once [] = ([], none)
split_once (c ∷ s) =
    let rest = split_once s in if nat_beq c colon then ([], some s) else (c ∷ rest.0, rest.1)

abbrev pub or_default : Option Text → Text
or_default none = []
or_default (some s) = s

unfoldable pub parse_key : Text → Result MnemesError MemoryItemRef
parse_key value = do
  let parts = split_once value
  reject_if (is_empty parts.0 || is_empty (or_default parts.1))
      (invalid_provenance (quoting "invalid memory item key" value))
  item_ref_new parts.0 (or_default parts.1)

abbrev pub canonical_key : MemoryItemRef → Text
canonical_key r = r.kind ++ (colon ∷ r.id)
