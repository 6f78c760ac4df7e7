-- ===== src/Usecase/Commands.antt =====
-- internal/usecase/quote/commands.go and internal/usecase/quote/errors.go. Durations are
-- nanoseconds.
use fx_quotes.Prelude.{ℕ, Bool}
use fx_quotes.Text.{Text}
use fx_quotes.Entity.Pair.{Pair}
use fx_quotes.Entity.Update.{Quote, QuoteUpdate, FailureCode}

abbrev pub max_idempotency_key_bytes : ℕ
max_idempotency_key_bytes = 128

-- What `errors.Is` tells apart in an error of the database driver or of a context.
pub data Fault : Type 0 where
  deadline_exceeded canceled internal : Fault

-- The sentinel errors, and the others that a store returns: an error of the driver or the context,
-- a violated constraint, a pair that is refused, a row that cannot be decoded, and the panic of a
-- nil dereference.
pub data StoreError : Type 0 where
  not_found : StoreError
  capacity_exceeded : StoreError
  no_work : StoreError
  idempotency_conflict : StoreError
  invalid_idempotency_key : StoreError
  lost_ownership : StoreError
  database : Fault → StoreError
  constraint_violated : StoreError
  invalid_pair : StoreError
  undecodable_row : StoreError
  nil_dereference : StoreError

pub record CreateOrGetCommand : Type 0 where
  pub pair : Pair
  pub idempotency_key : Text

pub record CreateUpdateCommand : Type 0 where
  pub pair : Pair
  pub idempotency_key : Text

pub record CreateUpdateResult : Type 0 where
  pub update : QuoteUpdate
  pub created : Bool

pub record CompleteCommand : Type 0 where
  pub update_id : Text
  pub attempt : ℕ
  pub quote : Quote

pub record RetryCommand : Type 0 where
  pub update_id : Text
  pub attempt : ℕ
  pub retry_after : ℕ

pub record FailCommand : Type 0 where
  pub update_id : Text
  pub attempt : ℕ
  pub code : FailureCode

pub data ProcessOutcome : Type 0 where
  process_completed retry_scheduled process_failed process_lost : ProcessOutcome

pub record ProcessResult : Type 0 where
  pub update : QuoteUpdate
  pub outcome : ProcessOutcome
  pub retry_after : ℕ
