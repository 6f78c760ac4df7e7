-- ===== src/Usecase/Service/Retrying.antt =====
-- When a pass of the service ends in a scheduled retry, over any store.
use fx_quotes.Prelude.{
  ℕ, ◌<◌, ◌≤◌, ◌≡◌, refl, inl, inr, Bool, true, false, ◌&&◌, Result, ok, err, arith, Bool-cases,
  ltb, if◌then◌else◌, &&-both,
}
use fx_quotes.Entity.Pair.{Pair}
use fx_quotes.Entity.Update.{Quote, QuoteUpdate}
use fx_quotes.Usecase.Commands.{
  StoreError, lost_ownership, ProcessOutcome, process_completed, process_failed, retry_scheduled,
  ProcessResult,
}
use fx_quotes.Usecase.Retry.{positive_or, minute}
use fx_quotes.Usecase.Retry.Backoff.{delay_bounds}
use fx_quotes.Usecase.Service.{
  FetchError, ServiceError, provider_required, Service, settle, is_retryable, provider_failure,
  complete_update, schedule_retry, fail_update, handle_provider_failure, after_fetch, after_claim,
  process_next_update, retry_delay, hint_of, failure_code_of,
}

abbrev pub scheduled : QuoteUpdate → ℕ → ProcessResult
scheduled stored wait = record { update = stored; outcome = retry_scheduled; retry_after = wait }

module _ {S : Type 0} (service : Service S) where
  -- A retry that the store has accepted for a claimed update, after a failure that may be retried.
  pub record IsRetry (update : QuoteUpdate) (e : FetchError) (s s' : S) (stored : QuoteUpdate)
      (wait : ℕ) : Type 0 where
    pub may_retry : is_retryable (provider_failure e) ≡ true
    pub attempts_left : update.attempt < service.max_attempts
    pub accepted :
        service.store.retry
          (record { update_id = update.id; attempt = update.attempt; retry_after = wait })
          s
        ≡ (s', ok stored)
    pub waits : 1 ≤ wait
    pub bounded : wait ≤ positive_or service.retry_policy.maximum minute

  settle-scheduled :
      (update : QuoteUpdate) (outcome : ProcessOutcome) (after : ℕ)
      (out : S × Result StoreError QuoteUpdate) {s' : S} {stored : QuoteUpdate} {wait : ℕ}
      → settle update outcome after out ≡ (s', ok (scheduled stored wait))
      → (outcome ≡ retry_scheduled) × (out ≡ (s', ok stored)) × (after ≡ wait)
  settle-scheduled update outcome after (s, ok stored) h = (cc h, cc h, cc h)
  settle-scheduled update outcome after (s, err lost_ownership) h = cc h
  settle-scheduled update outcome after (s, err _) h = cc h

  schedule_retry-IsRetry :
      (update : QuoteUpdate) (e : FetchError) (s : S) {s' : S} {stored : QuoteUpdate} {wait : ℕ}
      → is_retryable (provider_failure e) ≡ true
      → update.attempt < service.max_attempts
      → schedule_retry service update (provider_failure e) s ≡ (s', ok (scheduled stored wait))
      → IsRetry update e s s' stored wait
  unfolding schedule_retry retry_delay
  schedule_retry-IsRetry update e s again less h =
      let (o, out, after) =
        settle-scheduled update retry_scheduled (retry_delay service update (provider_failure e))
          (service.store.retry
            (record {
              update_id = update.id;
              attempt = update.attempt;
              retry_after = retry_delay service update (provider_failure e);
            })
            s)
          h in
      let (low, high, half, hinted, most) =
        delay_bounds service.retry_policy update.id update.attempt (hint_of (provider_failure e)) in
      record {
        may_retry = again;
        attempts_left = less;
        accepted = rw after at out;
        waits = rw after at low;
        bounded = rw after at high;
      }

  handle-IsRetry :
      (update : QuoteUpdate) (e : FetchError) (s : S) {s' : S} {stored : QuoteUpdate} {wait : ℕ}
      → handle_provider_failure service update e s ≡ (s', ok (scheduled stored wait))
      → IsRetry update e s s' stored wait
  unfolding handle_provider_failure fail_update
  handle-IsRetry update e s {s'} {stored} {wait} h =
      elim (Bool-cases
        (is_retryable (provider_failure e) && ltb update.attempt service.max_attempts)) [
          | inl again ↦
              schedule_retry-IsRetry update e s (&&-both _ _ again).0 (ground arith) (rw again at h)
          | inr last ↦
              let apart : process_failed ≡ retry_scheduled =
                (settle-scheduled update process_failed 0
                  (service.store.fail
                    (record {
                      update_id = update.id;
                      attempt = update.attempt;
                      code = failure_code_of (provider_failure e);
                    })
                    s)
                  {s' = s'} {stored = stored} {wait = wait} (rw last at h)).0 in
              cc apart
        ]

  fetched-IsRetry :
      (done : Bool) (update : QuoteUpdate) (answer : Result FetchError Quote) (s : S) {s' : S}
      {stored : QuoteUpdate} {wait : ℕ}
      → after_fetch service done update answer s ≡ (s', ok (scheduled stored wait))
      → (e : FetchError) × (answer ≡ err e) × IsRetry update e s s' stored wait
  unfolding after_fetch complete_update
  fetched-IsRetry true update answer s h = cc h
  fetched-IsRetry false update (ok quote) s {s'} {stored} {wait} h =
      let apart : process_completed ≡ retry_scheduled =
        (settle-scheduled update process_completed 0
          (service.store.complete
            (record { update_id = update.id; attempt = update.attempt; quote = quote }) s)
          {s' = s'} {stored = stored} {wait = wait} h).0 in
      cc apart
  fetched-IsRetry false update (err e) s h = (e, refl, handle-IsRetry update e s h)

  claimed-IsRetry :
      (meanwhile : S → S) (fetch : Pair → Result FetchError Quote) (done : Bool)
      (out : S × Result StoreError QuoteUpdate) {s' : S} {stored : QuoteUpdate} {wait : ℕ}
      → after_claim service meanwhile fetch done out ≡ (s', ok (scheduled stored wait))
      → (update : QuoteUpdate) × (e : FetchError) × (out.1 ≡ ok update)
        × (fetch update.pair ≡ err e)
        × IsRetry update e (meanwhile out.0) s' stored wait
  unfolding after_claim
  claimed-IsRetry meanwhile fetch done (s, err e) h = cc h
  claimed-IsRetry meanwhile fetch done (s, ok update) h =
      let (e, failed, retried) = fetched-IsRetry done update (fetch update.pair) (meanwhile s) h in
      (update, e, refl, failed, retried)

  -- A pass that ends in a scheduled retry has claimed an update with attempts left; the provider's
  -- answer was a temporary or throttling failure, the store has accepted the retry, and the wait is
  -- positive and no longer than the policy's maximum.
  pub process_next_update-IsRetry :
      (meanwhile : S → S) (fetch : Pair → Result FetchError Quote) (done : Bool) (lease : ℕ)
      (s s' : S) (stored : QuoteUpdate) (wait : ℕ)
      → process_next_update service meanwhile fetch done lease s ≡ (s', ok (scheduled stored wait))
      → (update : QuoteUpdate) × (e : FetchError) × ((service.store.claim_next lease s).1
          ≡ ok update)
        × (fetch update.pair ≡ err e)
        × IsRetry update e (meanwhile (service.store.claim_next lease s).0) s' stored wait
  unfolding process_next_update
  process_next_update-IsRetry meanwhile fetch done lease s s' stored wait h =
      claimed-IsRetry meanwhile fetch done (service.store.claim_next lease s)
        (gated service.has_provider _ h)
    where
      gated :
          (b : Bool) (out : S × Result ServiceError ProcessResult)
          → (if b then out else (s, err provider_required)) ≡ (s', ok (scheduled stored wait))
          → out ≡ (s', ok (scheduled stored wait))
      gated true out h = h
      gated false out h = cc h
