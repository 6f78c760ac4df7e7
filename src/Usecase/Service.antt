-- ===== src/Usecase/Service.antt =====
-- internal/usecase/quote/service.go, provider.go and ports.go. A store acts on a state of its own;
-- the provider's answer and the end of the context are arguments.

pub mod Retrying
use fx_quotes.Prelude.{
  ℕ, Bool, true, false, not, ◌&&◌, ◌||◌, List, Option, none, some, Result, ok, err, ltb,
  if◌then◌else◌,
}
use fx_quotes.Prelude.Int.{ℤ}
use fx_quotes.Text.{Text, is_empty, byte_length}
use fx_quotes.Entity.Pair.{Pair}
use fx_quotes.Entity.Update.{
  Quote, QuoteUpdate, FailureCode, provider_permanent, attempts_exhausted,
}
use fx_quotes.Usecase.Commands.{
  StoreError, lost_ownership, invalid_idempotency_key, max_idempotency_key_bytes,
  CreateOrGetCommand, CreateUpdateCommand, CreateUpdateResult, CompleteCommand, RetryCommand,
  FailCommand, ProcessOutcome, process_completed, retry_scheduled, process_failed, process_lost,
  ProcessResult,
}
use fx_quotes.Usecase.Retry.{RetryPolicy, delay}

pub data FailureKind : Type 0 where
  temporary throttled permanent : FailureKind

pub record ProviderError : Type 0 where
  pub kind : FailureKind
  pub code : FailureCode
  pub retry_after : ℤ

-- An error of `FetchRate`: `errors.As` finds a `ProviderError` in it, or not.
pub data FetchError : Type 0 where
  classified : ProviderError → FetchError
  unclassified : FetchError

-- `Store`: an operation takes the state to the next one, with a result.
pub record Store (S : Type 0) : Type 0 where
  pub create_or_get : CreateOrGetCommand → S → S × Result StoreError (QuoteUpdate × Bool)
  pub get_update : Text → S → S × Result StoreError QuoteUpdate
  pub get_latest : Pair → S → S × Result StoreError Quote
  pub claim_next : ℕ → S → S × Result StoreError QuoteUpdate
  pub complete : CompleteCommand → S → S × Result StoreError QuoteUpdate
  pub retry : RetryCommand → S → S × Result StoreError QuoteUpdate
  pub fail : FailCommand → S → S × Result StoreError QuoteUpdate
  pub recover_expired : ℕ → S → S × Result StoreError (List QuoteUpdate)

pub record Service (S : Type 0) : Type 0 where
  pub store : Store S
  -- Whether the provider is there.
  pub has_provider : Bool
  pub max_attempts : ℕ
  pub retry_policy : RetryPolicy

-- The error of a service without a provider, or of its store.
pub data ServiceError : Type 0 where
  provider_required : ServiceError
  store_error : StoreError → ServiceError

-- `providerFailure`.
abbrev pub provider_failure : FetchError → Option ProviderError
provider_failure (classified e) = some e
provider_failure unclassified = none

abbrev pub is_retryable_kind : FailureKind → Bool
is_retryable_kind temporary = true
is_retryable_kind throttled = true
is_retryable_kind permanent = false

abbrev pub is_retryable : Option ProviderError → Bool
is_retryable none = false
is_retryable (some e) = is_retryable_kind e.kind

abbrev provider_code : Option ProviderError → FailureCode → FailureCode
provider_code none code = code
provider_code (some e) code = if is_empty e.code then code else e.code

-- The code that `handleProviderFailure` stores with a failed update.
abbrev pub failure_code_of : Option ProviderError → FailureCode
failure_code_of failure =
    provider_code failure (if is_retryable failure then attempts_exhausted else provider_permanent)

-- `RetryAfter` of the zero `ProviderError` is 0.
abbrev pub hint_of : Option ProviderError → ℤ
hint_of none = ℤ.pos 0
hint_of (some e) = e.retry_after

-- What is made of a store's answer: the loss of ownership is an outcome, not an error.
abbrev pub settle :
    {S : Type 0}
    → QuoteUpdate
    → ProcessOutcome
    → ℕ
    → S × Result StoreError QuoteUpdate
    → S × Result ServiceError ProcessResult
settle update outcome after (s, ok stored) =
    (s, ok (record { update = stored; outcome = outcome; retry_after = after }))
settle update outcome after (s, err lost_ownership) =
    (s, ok (record { update = update; outcome = process_lost; retry_after = 0 }))
settle update outcome after (s, err e) = (s, err (store_error e))

module _ {S : Type 0} (service : Service S) where
  abbrev pub create_result :
      S × Result StoreError (QuoteUpdate × Bool) → S × Result StoreError CreateUpdateResult
  create_result (s, ok (update, created)) = (s, ok (record { update = update; created = created }))
  create_result (s, err e) = (s, err e)

  unfoldable pub create_update : CreateUpdateCommand → S → S × Result StoreError CreateUpdateResult
  create_update command s =
      if ltb max_idempotency_key_bytes (byte_length command.idempotency_key)
      then (s, err invalid_idempotency_key)
      else create_result (
          service.store.create_or_get
            (record { pair = command.pair; idempotency_key = command.idempotency_key }) s)

  unfoldable pub complete_update : QuoteUpdate → Quote → S → S × Result ServiceError ProcessResult
  complete_update update obtained s = settle update process_completed 0 (
      service.store.complete
        (record { update_id = update.id; attempt = update.attempt; quote = obtained }) s)

  unfoldable pub retry_delay : QuoteUpdate → Option ProviderError → ℕ
  retry_delay update failure = delay service.retry_policy update.id update.attempt (hint_of failure)

  unfoldable pub schedule_retry :
      QuoteUpdate → Option ProviderError → S → S × Result ServiceError ProcessResult
  schedule_retry update failure s = settle update retry_scheduled (retry_delay update failure) (
      service.store.retry
        (record {
          update_id = update.id;
          attempt = update.attempt;
          retry_after = retry_delay update failure;
        })
        s)

  unfoldable pub fail_update :
      QuoteUpdate → Option ProviderError → S → S × Result ServiceError ProcessResult
  fail_update update failure s = settle update process_failed 0 (
      service.store.fail
        (record { update_id = update.id; attempt = update.attempt; code = failure_code_of failure })
        s)

  unfoldable pub handle_provider_failure :
      QuoteUpdate → FetchError → S → S × Result ServiceError ProcessResult
  handle_provider_failure update e s =
      let failure = provider_failure e in
      if is_retryable failure && ltb update.attempt service.max_attempts
      then schedule_retry update failure s
      else fail_update update failure s

  -- `ProcessNextUpdate` behind the provider's answer; `done` tells that the context has ended by
  -- then.
  unfoldable pub after_fetch :
      Bool → QuoteUpdate → Result FetchError Quote → S → S × Result ServiceError ProcessResult
  after_fetch true update answer s =
      (s, ok (record { update = update; outcome = process_lost; retry_after = 0 }))
  after_fetch false update (ok obtained) s = complete_update update obtained s
  after_fetch false update (err e) s = handle_provider_failure update e s

  -- `ProcessNextUpdate` behind the claim; `meanwhile` is what others do to the store while the
  -- provider answers.
  unfoldable pub after_claim :
      (S → S)
      → (Pair → Result FetchError Quote)
      → Bool
      → S × Result StoreError QuoteUpdate
      → S × Result ServiceError ProcessResult
  after_claim meanwhile fetch done (s, err e) = (s, err (store_error e))
  after_claim meanwhile fetch done (s, ok update) =
      after_fetch done update (fetch update.pair) (meanwhile s)

  unfoldable pub process_next_update :
      (S → S)
      → (Pair → Result FetchError Quote)
      → Bool
      → ℕ
      → S
      → S × Result ServiceError ProcessResult
  process_next_update meanwhile fetch done lease s =
      if service.has_provider
      then after_claim meanwhile fetch done (service.store.claim_next lease s)
      else (s, err provider_required)

  unfoldable pub service_recover_expired : S → S × Result StoreError (List QuoteUpdate)
  service_recover_expired s = service.store.recover_expired service.max_attempts s
