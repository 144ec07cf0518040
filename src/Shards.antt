-- ===== src/Shards.antt =====
-- src/shards.rs: the catalog of shards, the choice of shards for a query, and the merge of what they
-- give. A search result is a type of the crate semantic_memory: it, its id, its content and the order
-- of its scores are parameters.
pub mod Cache
pub mod Rank
pub mod Merge
mod Tests
use mnemes.Prelude.{
  ℕ, ◌+◌, ◌*◌, ◌-◌, ◌^◌, Bool, true, false, ◌&&◌, ◌||◌, not, List, [], ◌∷◌, ◌++◌, map, any, length,
  is_empty, ltb, leb, nat_beq, ◌==◌, list_eq, if◌then◌else◌, Result, ok, err,
}
use mnemes.Prelude.Text.{Text, text, as_bytes}
use mnemes.Prelude.Sort.{sort_by, text_le, dedup}
use mnemes.Profiles.Scope.{extend_first}
use mnemes.Error.{MnemesError, invalid_shard_catalog, quoting}
use mnemes.Identity.{DeviceStatus}

pub data ShardState : Type 0 where
  active quarantined revoked : ShardState

abbrev pub shard_state_as_str : ShardState → Text
shard_state_as_str ShardState.active = text "active"
shard_state_as_str ShardState.quarantined = text "quarantined"
shard_state_as_str ShardState.revoked = text "revoked"

unfoldable pub parse_shard_state : Text → Result MnemesError ShardState
parse_shard_state value =
    if value == text "active"
    then ok ShardState.active
    else if value == text "quarantined"
    then ok ShardState.quarantined
    else if value == text "revoked"
    then ok ShardState.revoked
    else err (invalid_shard_catalog (quoting "invalid shard state" value))

-- `ShardState::from`
unfoldable pub shard_state_from : DeviceStatus → ShardState
shard_state_from DeviceStatus.active = ShardState.active
shard_state_from DeviceStatus.quarantined = ShardState.quarantined
shard_state_from DeviceStatus.revoked = ShardState.revoked

-- The columns that routing reads; the others are statistics.
pub record DeviceShard : Type 0 where
  pub device_id : Text
  pub state : ShardState
  pub generation : ℕ  -- u64
  pub routing_terms : Text
  pub namespaces : List Text
  pub device_status : DeviceStatus

abbrev pub is_active_state : ShardState → Bool
is_active_state ShardState.active = true
is_active_state _ = false

abbrev pub is_active_status : DeviceStatus → Bool
is_active_status DeviceStatus.active = true
is_active_status _ = false

abbrev pub eligible : DeviceShard → Bool
eligible s = is_active_state s.state && is_active_status s.device_status

pub record RankedShard : Type 0 where
  pub device_id : Text
  pub score : ℕ  -- u64

unfoldable pub is_ascii_alphanumeric : ℕ → Bool
is_ascii_alphanumeric c =
    (leb 48 c && leb c 57) || (leb 65 c && leb c 90) || (leb 97 c && leb c 122)

unfoldable pub to_ascii_lowercase : ℕ → ℕ
to_ascii_lowercase c = if leb 65 c && leb c 90 then c + 32 else c

-- `split` on what is not alphanumeric.
unfoldable pub split_tokens : Text → List Text
split_tokens [] = [] ∷ []
split_tokens (c ∷ s) =
    let rest = split_tokens s in if is_ascii_alphanumeric c then extend_first c rest else [] ∷ rest

unfoldable pub non_empty : List Text → List Text
non_empty [] = []
non_empty (t ∷ ts) = let rest = non_empty ts in if is_empty t then rest else t ∷ rest

unfoldable pub routing_tokens : Text → List Text
routing_tokens value =
    dedup (sort_by text_le (map (map to_ascii_lowercase) (non_empty (split_tokens value))))

-- The tokens of the terms and of each namespace.
unfoldable pub namespace_terms : List Text → List Text
namespace_terms [] = []
namespace_terms (n ∷ ns) = routing_tokens n ++ namespace_terms ns

unfoldable pub catalog_terms : DeviceShard → List Text
catalog_terms s = routing_tokens s.routing_terms ++ namespace_terms s.namespaces

-- The size of the intersection: the terms, each once, that are among the others.
unfoldable pub overlap : List Text → List Text → ℕ
overlap [] others = 0
overlap (t ∷ ts) others =
    let rest = overlap ts others in if any (λ o. o == t) others then rest + 1 else rest

-- Arithmetic of a u64 that stops at its largest number.
abbrev pub saturate : ℕ → ℕ
saturate n = if ltb n (2 ^ 64) then n else 2 ^ 64 - 1

unfoldable pub score_shard : List Text → Text → DeviceShard → RankedShard
score_shard query_terms requester s = record {
  device_id = s.device_id;
  score = saturate (
      saturate (overlap query_terms (catalog_terms s) * 2)
      + (if s.device_id == requester then 1 else 0));
}

-- The order of the ranks: the higher score first, then the smaller id.
unfoldable pub rank_le : RankedShard → RankedShard → Bool
rank_le left right =
    ltb right.score left.score
    || nat_beq left.score right.score && text_le left.device_id right.device_id

unfoldable pub rank_eligible : List Text → Text → List DeviceShard → List RankedShard
rank_eligible query_terms requester [] = []
rank_eligible query_terms requester (s ∷ shards) =
    let rest = rank_eligible query_terms requester shards in
    if eligible s then score_shard query_terms requester s ∷ rest else rest

unfoldable pub rank_shards : (query requester : Text) → List DeviceShard → List RankedShard
rank_shards query requester shards =
    sort_by rank_le (rank_eligible (routing_tokens query) requester shards)
