-- ===== src/Postgres/Effect/Step.antt =====
-- The effect of every step.
use fx_quotes.Prelude.{Option, true, false, refl, arith, ◌+◌}
use fx_quotes.Text.{Text}
use fx_quotes.Postgres.Schema.{Db}
use fx_quotes.Postgres.Select.Members.{Distinct}
use fx_quotes.Postgres.Steps.{
  Call, creates, claims, completes, retries, fails, recovers, Limits, step,
}
use fx_quotes.Postgres.Effect.{Rules, Effect}
use fx_quotes.Postgres.Effect.Calls.{
  claim_next-Effect, retry-Effect, fail-Effect, recover_expired_batch-Effect, complete-Effect,
}
use fx_quotes.Postgres.Effect.Admission.{create_or_get-Effect}

-- Only `complete` completes; a retry puts back a row of its attempt, a recovery one that may be
-- tried again, and no other call puts a row back.
abbrev pub rules_of : Limits → Call → Rules
rules_of limits (completes io clock command) = record {
  may_succeed = true;
  retry_below = 0;
  max_active = limits.max_active;
}
rules_of limits (retries commit clock command) = record {
  may_succeed = false;
  retry_below = command.attempt + 1;
  max_active = limits.max_active;
}
rules_of limits (recovers commit locked clock batch) = record {
  may_succeed = false;
  retry_below = limits.max_attempts;
  max_active = limits.max_active;
}
rules_of limits _ = record { may_succeed = false; retry_below = 0; max_active = limits.max_active }

pub step-Effect :
    (numeric : Text → Option Text) (limits : Limits) (db : Db) (call : Call)
    → Distinct db.updates
    → Effect (rules_of limits call) db (step numeric limits db call)
unfolding step
step-Effect numeric limits db (creates io command) d = create_or_get-Effect io command db
step-Effect numeric limits db (claims commit locked clock lease) d =
    claim_next-Effect commit locked clock lease db d
step-Effect numeric limits db (completes io clock command) d =
    complete-Effect numeric io clock command db refl
step-Effect numeric limits db (retries commit clock command) d =
    retry-Effect commit clock command db (omega arith)
step-Effect numeric limits db (fails commit clock command) d = fail-Effect commit clock command db
step-Effect numeric limits db (recovers commit locked clock batch) d =
    recover_expired_batch-Effect commit locked clock limits.max_attempts batch db (omega arith) d
