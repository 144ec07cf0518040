-- ===== src/Shards/Merge.antt =====
-- src/shards.rs: the results of the shards are merged into one ranking, each item once.
pub mod Conflicts
pub mod Laws
use Prim.Native.Nat.{Ordering}
use mnemes.Prelude.{
  ℕ, suc, Bool, true, false, ◌||◌, Option, none, some, List, [], ◌∷◌, nat_beq, ◌==◌, ◌!=◌, list_eq,
  if◌then◌else◌, Result, ok, err, ◌>>=◌, ◌>>◌, any,
}
use mnemes.Prelude.Text.{Text}
use mnemes.Prelude.Sort.{sort_by, text_le}
use mnemes.Error.{MnemesError, conflicting_shard_item}

pub record RoutedSearchResult (SearchResult : Type 0) : Type 0 where
  pub result : SearchResult
  pub device_id : Text
  pub shard_generation : ℕ  -- u64
  pub child_receipt_id : Option Text

-- The map of the ids that were seen, with their contents.
unfoldable pub get : List (Text × Text) → Text → Option Text
get [] id = none
get ((key, value) ∷ entries) id =
    let rest = get entries id in if key == id then some value else rest

-- A `SearchResult` has an id, a content, and a score of an f32, which `total_cmp` orders.
module _ {SearchResult : Type 0} (result_id content : SearchResult → Text)
    (score_cmp : SearchResult → SearchResult → Ordering) where
  -- The higher score first, then the smaller id.
  unfoldable pub result_le :
      RoutedSearchResult SearchResult → RoutedSearchResult SearchResult → Bool
  result_le left right = elim (score_cmp right.result left.result) [
    | Ordering.lt ↦ true
    | Ordering.eq ↦ text_le (result_id left.result) (result_id right.result)
    | Ordering.gt ↦ false
  ]

  -- The loop that looks for one id with two contents.
  unfoldable pub check_conflicts :
      List (Text × Text) → List (RoutedSearchResult SearchResult) → Result MnemesError (Unit {0})
  check_conflicts seen [] = ok tt
  check_conflicts seen (r ∷ results) =
      let item_id = result_id r.result in
      elim (get seen item_id) [
        | some existing ↦
            if existing != content r.result
            then err (conflicting_shard_item item_id)
            else check_conflicts seen results
        | none ↦ check_conflicts ((item_id, content r.result) ∷ seen) results
      ]

  -- The loop that emits: `emitted` are the ids so far, and `count` is their number.
  unfoldable pub emit :
      List Text
      → (top_k count : ℕ) → List (RoutedSearchResult SearchResult)
      → List (RoutedSearchResult SearchResult)
  emit emitted top_k count [] = []
  emit emitted top_k count (r ∷ results) =
      let item_id = result_id r.result in
      let skipped = emit emitted top_k count results in
      let further = emit (item_id ∷ emitted) top_k (suc count) results in
      if any (λ id. id == item_id) emitted
      then skipped
      else r ∷ (if nat_beq (suc count) top_k then [] else further)

  unfoldable pub merge_routed_results :
      List (RoutedSearchResult SearchResult)
      → ℕ
      → Result MnemesError (List (RoutedSearchResult SearchResult))
  merge_routed_results results top_k = do
    let sorted = sort_by result_le results
    check_conflicts [] sorted
    ok (emit [] top_k 0 sorted)
