-- ===== src/RpcClient/Errors.antt =====
-- Which errors src/services/rpc_client.rs retries, and how. `MulticallError` and the transport's
-- errors come from alloy: of the latter, the model reads what `as_error_resp` and `as_revert_data`
-- answer, which are parameters, as is the lower case of a text. The retry loop of backon is the field
-- of `Backon`, under the laws that its documentation states.
use balances_watcher.Base.{
  ℕ, suc, ◌≡◌, Bool, true, false, not, ◌||◌, List, [], ◌∷◌, Option, none, some, String, Result, ok,
  err, if◌then◌else◌,
}
use balances_watcher.Base.Text.{contains_text}

-- The delays are in milliseconds.
pub record ExponentialBuilder : Type 0 where
  pub min_delay : ℕ
  pub max_delay : ℕ
  pub max_times : ℕ
  pub jitter : Bool

unfoldable pub backoff : ExponentialBuilder
backoff = record { min_delay = 2000; max_delay = 10000; max_times = 3; jitter = true }

-- `attempt.retry(builder).when(p).notify(f)`, by the answers of the first attempt, the second, and so
-- on: the answer, and the errors with which `f` is called.
pub record Backon : Type 1 where
  pub retry :
      {A E : Type 0} → ExponentialBuilder → (ℕ → Result E A) → (E → Bool) → Result E A × List E
  pub succeeds :
      {A E : Type 0} (builder : ExponentialBuilder) (attempt : ℕ → Result E A) (p : E → Bool)
      (a : A)
      → attempt 0 ≡ ok a
      → retry builder attempt p ≡ (ok a, [])
  pub is_refused :
      {A E : Type 0} (builder : ExponentialBuilder) (attempt : ℕ → Result E A) (p : E → Bool)
      (e : E)
      → attempt 0 ≡ err e
      → p e ≡ false
      → retry builder attempt p ≡ (err e, [])
  pub is_exhausted :
      {A E : Type 0} (builder : ExponentialBuilder) (attempt : ℕ → Result E A) (p : E → Bool)
      (e : E)
      → attempt 0 ≡ err e
      → builder.max_times ≡ 0
      → retry builder attempt p ≡ (err e, [])
  pub again :
      {A E : Type 0} (builder : ExponentialBuilder) (attempt : ℕ → Result E A) (p : E → Bool)
      (e : E) (times : ℕ)
      → attempt 0 ≡ err e
      → p e ≡ true
      → builder.max_times ≡ suc times
      → retry builder attempt p ≡ (
          let (r, notified) =
            retry (record builder { max_times = times }) (λ i. attempt (suc i)) p in
          (r, e ∷ notified))

abbrev pub query_too_big : List String
query_too_big = "exceed" ∷ "too large" ∷ "more than" ∷ "response size" ∷ "specify an address" ∷ []

unfoldable pub any_pattern : String → List String → Bool
any_pattern message [] = false
any_pattern message (pattern' ∷ patterns) =
    contains_text message pattern' || any_pattern message patterns

-- The tests on the message of an error response, in lower case.
unfoldable pub is_message_retryable : String → Bool
unfolding any_pattern
is_message_retryable message =
    if contains_text message "rate" then true else not (any_pattern message query_too_big)

module _ {TransportError ErrorResp : Type 0}
    (as_error_resp : TransportError → Option ErrorResp) where
  unfoldable pub is_get_logs_retryable :
      (ErrorResp → String) → (String → String) → TransportError → Bool
  unfolding is_message_retryable
  is_get_logs_retryable message to_lowercase e = elim (as_error_resp e) [
    | none ↦ true
    | some resp ↦ is_message_retryable (to_lowercase (message resp))
  ]

-- `and_then`, and `is_none` of its answer.
unfoldable pub and_then_is_none : {A B : Type 0} → (A → Option B) → Option A → Bool
and_then_is_none f none = true
and_then_is_none f (some a) = elim (f a) [ none ↦ true | some b ↦ false ]

-- The cases of alloy's `MulticallError` that the code tells apart.
pub data MulticallError (TransportError DecodeError CallFailed : Type 0) : Type 0 where
  transport_error : TransportError → MulticallError TransportError DecodeError CallFailed
  decode_error : DecodeError → MulticallError TransportError DecodeError CallFailed
  no_return_data value_tx : MulticallError TransportError DecodeError CallFailed
  call_failed : CallFailed → MulticallError TransportError DecodeError CallFailed

unfoldable pub is_multicall_retryable :
    {TransportError ErrorResp Data DecodeError CallFailed : Type 0}
    → (TransportError → Option ErrorResp)
    → (ErrorResp → Option Data)
    → MulticallError TransportError DecodeError CallFailed
    → Bool
unfolding and_then_is_none
is_multicall_retryable as_error_resp as_revert_data (transport_error e) =
    and_then_is_none as_revert_data (as_error_resp e)
is_multicall_retryable as_error_resp as_revert_data (decode_error e) = false
is_multicall_retryable as_error_resp as_revert_data no_return_data = false
is_multicall_retryable as_error_resp as_revert_data (call_failed e) = false
is_multicall_retryable as_error_resp as_revert_data value_tx = false
