-- ===== src/Operations.antt =====
-- src/types.rs and src/store.rs: the envelopes of operations, and their submission under a key that
-- collapses retries. The rows are in the order of their insertion; the foreign keys are tests of the ids
-- of devices and actors. A submission looks its key up and inserts under two locks, between which others
-- may insert.
pub mod RunPack
pub mod Laws
mod Tests
use mnemes.Prelude.{
  ℕ, Bool, true, false, ◌||◌, not, Option, none, some, List, [], ◌∷◌, ◌++◌, any, ◌==◌, ◌!=◌,
  list_eq, if◌then◌else◌, Result, ok, err, ◌>>=◌, ◌>>◌, reject_if, ok_or,
}
use mnemes.Prelude.Text.{Text, text}
use mnemes.Error.{MnemesError, idempotency_conflict, words, quoting}
use mnemes.Identity.{CorruptData}
use mnemes.Registry.{find_row, constraint_failed}

pub data OperationKind : Type 0 where
  observe assert supersede revoke redact adjudicate : OperationKind

abbrev pub operation_kind_as_str : OperationKind → Text
operation_kind_as_str observe = text "observe"
operation_kind_as_str assert = text "assert"
operation_kind_as_str supersede = text "supersede"
operation_kind_as_str revoke = text "revoke"
operation_kind_as_str redact = text "redact"
operation_kind_as_str adjudicate = text "adjudicate"

unfoldable pub parse_operation_kind : Text → Text → Result CorruptData OperationKind
parse_operation_kind value row_id =
    if value == text "observe"
    then ok observe
    else if value == text "assert"
    then ok assert
    else if value == text "supersede"
    then ok supersede
    else if value == text "revoke"
    then ok revoke
    else if value == text "redact"
    then ok redact
    else if value == text "adjudicate"
    then ok adjudicate
    else err (record { table = "operation_envelopes"; row_id = row_id; detail = value })

pub record OperationEnvelope : Type 0 where
  pub operation_id : Text
  pub idempotency_key : Text
  pub requesting_device_id : Text
  pub requesting_actor_id : Text
  pub recording_device_id : Text
  pub recording_server_id : Text
  pub operation_kind : OperationKind
  pub target_kind : Text
  pub target_id : Text
  pub content_digest : Text
  pub observed_at : Option Text
  pub valid_time : Option Text
  pub recorded_at : Text
  pub receipt_id : Option Text

unfoldable pub get_operation_by_idempotency_key :
    Text → List OperationEnvelope → Option OperationEnvelope
get_operation_by_idempotency_key key rows =
    find_row (λ (o : OperationEnvelope). o.idempotency_key == key) rows

abbrev pub has_receipt : Text → Option Text → Bool
has_receipt id none = false
has_receipt id (some receipt) = receipt == id

unfoldable pub get_operation_by_receipt : Text → List OperationEnvelope → Option OperationEnvelope
get_operation_by_receipt id rows =
    find_row (λ (o : OperationEnvelope). has_receipt id o.receipt_id) rows

abbrev pub receipt_of : Text → Text
receipt_of operation_id = text "op-receipt:" ++ operation_id

abbrev pub receipt_found : Result MnemesError Text → Result MnemesError (Option Text)
receipt_found found = found >>= (λ receipt. ok (some receipt))

-- What is found under a key: the receipt of an exact retry, a conflict, or nothing.
unfoldable pub judge :
    OperationEnvelope → Option OperationEnvelope → Result MnemesError (Option Text)
judge envelope none = ok none
judge envelope (some existing) =
    if existing.content_digest == envelope.content_digest
    then receipt_found (
        ok_or existing.receipt_id (
          idempotency_conflict
            (quoting "no persistent receipt for operation with key" envelope.idempotency_key)))
    else err (
        idempotency_conflict (quoting "operation already exists with key" envelope.idempotency_key))

unfoldable pub look_up :
    OperationEnvelope → List OperationEnvelope → Result MnemesError (Option Text)
look_up envelope rows =
    judge envelope (get_operation_by_idempotency_key envelope.idempotency_key rows)

-- One of several submissions that run at a time.
pub record Submission : Type 0 where
  pub now : Text
  pub envelope : OperationEnvelope
  pub seen : List OperationEnvelope

-- `is_device` and `is_actor` say which ids the foreign keys find.
module _ (is_device is_actor : Text → Bool) where
  unfoldable pub insert_operation :
      (now : Text)
      → OperationEnvelope
      → List OperationEnvelope
      → Result MnemesError (Text × List OperationEnvelope)
  insert_operation now envelope rows = do
    let receipt_id = receipt_of envelope.operation_id
    reject_if
        (any (λ (o : OperationEnvelope). o.operation_id == envelope.operation_id) rows
          || not (is_device envelope.requesting_device_id)
          || not (is_actor envelope.requesting_actor_id))
        constraint_failed
    ok (
      receipt_id,
      rows ++ (record envelope { recorded_at = now; receipt_id = some receipt_id } ∷ []),
    )

  -- The receipt that was found, or an insertion.
  unfoldable pub finish :
      (now : Text)
      → OperationEnvelope
      → List OperationEnvelope
      → Option Text
      → Result MnemesError (Text × List OperationEnvelope)
  finish now envelope rows (some receipt) = ok (receipt, rows)
  finish now envelope rows none = insert_operation now envelope rows

  -- The look-up reads the rows under one lock, `seen`, and the insertion finds the rows that are there
  -- when it gets its own lock: in between others may have inserted.
  unfoldable pub submit_operation :
      (now : Text)
      → OperationEnvelope
      → (seen rows : List OperationEnvelope) → Result MnemesError (Text × List OperationEnvelope)
  submit_operation now envelope seen rows = do
    found ← look_up envelope seen
    finish now envelope rows found

  abbrev pub rows_after :
      List OperationEnvelope
      → Result MnemesError (Text × List OperationEnvelope)
      → List OperationEnvelope
  rows_after rows (ok done) = done.1
  rows_after rows (err e) = rows

  -- Submissions in the order in which they end, each with the rows that its look-up saw, which may be
  -- out of date.
  unfoldable pub submit_all : List Submission → List OperationEnvelope → List OperationEnvelope
  submit_all [] rows = rows
  submit_all (s ∷ later) rows =
      submit_all later (rows_after rows (submit_operation s.now s.envelope s.seen rows))
