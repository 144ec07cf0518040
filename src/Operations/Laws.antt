-- ===== src/Operations/Laws.antt =====
-- src/store.rs: a retry gets the receipt of what it retries, also where submissions interleave.
use mnemes.Prelude.{◌≡◌, some, List, list_eq}
use mnemes.Prelude.Text.{Text}
use mnemes.Operations.{OperationEnvelope, get_operation_by_idempotency_key}

-- The key has a row with this digest and this receipt.
pub record IsRecorded (key digest receipt : Text) (rows : List OperationEnvelope) : Type 0 where
  pub row : OperationEnvelope
  pub found : get_operation_by_idempotency_key key rows ≡ some row
  pub same_digest : row.content_digest ≡ digest
  pub same_receipt : row.receipt_id ≡ some receipt
