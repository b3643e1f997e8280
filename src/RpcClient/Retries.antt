-- ===== src/RpcClient/Retries.antt =====
-- Which attempt answers a call that is retried.
use balances_watcher.Base.{
  ℕ, zero, suc, ◌+◌, ◌≤◌, ◌<◌, ◌≡◌, refl, sym, ap, ◌⊎◌, inl, inr, Bool, true, false, List, String,
  Result, ok, err, Result-cases, Bool-cases, length, arith,
}
use balances_watcher.RpcClient.Errors.{Backon, ExponentialBuilder, backoff}
use balances_watcher.RpcClient.{Counters, Filter, exhausted_from, get_logs_with_retries}

module _ {A E : Type 0} (retryable : E → Bool) where
  abbrev pub IsFinal : Result E A → Type 0
  IsFinal (ok a) = Unit
  IsFinal (err e) = retryable e ≡ false

  -- Attempt `i` is the first one that succeeds or is refused for good, or the last one that there is.
  abbrev pub Stops : ℕ → (ℕ → Result E A) → ℕ → Type 0
  Stops times attempt i =
      (i ≤ times)
      × ((j : ℕ) → j < i → (e : E) × (attempt j ≡ err e) × (retryable e ≡ true))
      × ((i ≡ times) ⊎ IsFinal (attempt i))

  Stops-suc :
      (times : ℕ) (attempt : ℕ → Result E A) (e : E) (i : ℕ)
      → attempt 0 ≡ err e
      → retryable e ≡ true
      → Stops times (λ j. attempt (suc j)) i
      → Stops (suc times) attempt (suc i)
  Stops-suc times attempt e i failed retried (within, earlier, last) = (
    omega arith,
    all_earlier,
    elim last [ inl at_end ↦ inl (omega arith) | inr final ↦ inr final ],
  )
    where
      all_earlier : (j : ℕ) → j < suc i → (f : E) × (attempt j ≡ err f) × (retryable f ≡ true)
      all_earlier zero before = (e, failed, retried)
      all_earlier (suc j) before = earlier j (omega arith)

  Stops-not_before :
      (times : ℕ) (attempt : ℕ → Result E A) (i k : ℕ)
      → Stops times attempt i
      → Stops times attempt k
      → i < k
      → ⊥
  Stops-not_before times attempt i k (within, earlier, last) (within', earlier', last') before =
      let (e, failed, retried) = earlier' i before in
      elim last [
        | inl at_end ↦ absurd (omega arith)
        | inr final ↦ not_final (attempt i) e failed retried final
      ]
    where
      not_final : (r : Result E A) (e : E) → r ≡ err e → retryable e ≡ true → IsFinal r → ⊥
      not_final (ok a) e failed retried final = absurd cc
      not_final (err f) e failed retried final =
          let same : f ≡ e = cc in let again : retryable f ≡ true = rw same retried in absurd cc

  pub Stops-unique :
      (times : ℕ) (attempt : ℕ → Result E A) (i k : ℕ)
      → Stops times attempt i
      → Stops times attempt k
      → i ≡ k
  Stops-unique times attempt i k here there = omega (
    arith,
    Stops-not_before times attempt i k here there,
    Stops-not_before times attempt k i there here,
  )

  pub by_answer : (r : Result E A) (answer : Result E A) → r ≡ answer → IsFinal answer → IsFinal r
  by_answer r answer same final = rw same final

  module _ (backon : Backon) where
    -- The call answers what attempt `i` answers, and notifies of each one before it.
    abbrev pub AnswersAt : ℕ → ExponentialBuilder → (ℕ → Result E A) → ℕ → Type 0
    AnswersAt times builder attempt i =
        Stops times attempt i
        × ((backon.retry builder attempt retryable).0 ≡ attempt i)
        × (length (backon.retry builder attempt retryable).1 ≡ i)

    first_or_again :
        (times : ℕ) (builder : ExponentialBuilder) (attempt : ℕ → Result E A)
        → AnswersAt times builder attempt 0 ⊎ ((e : E) × (attempt 0 ≡ err e) × (retryable e ≡ true))
    first_or_again times builder attempt = elim (Result-cases (attempt 0)) [
      | inr (a, ok_at_once) ↦ inl (
        (omega arith, λ j never. absurd (omega arith), inr (by_answer _ _ ok_at_once tt)),
        rw (backon.succeeds builder attempt retryable a ok_at_once) (sym ok_at_once),
        rw (backon.succeeds builder attempt retryable a ok_at_once) refl,
      )
      | inl (e, failed) ↦ elim (Bool-cases (retryable e)) [
        | inr refused ↦ inl (
          (omega arith, λ j never. absurd (omega arith), inr (by_answer _ _ failed refused)),
          rw (backon.is_refused builder attempt retryable e failed refused) (sym failed),
          rw (backon.is_refused builder attempt retryable e failed refused) refl,
        )
        | inl retried ↦ inr (e, failed, retried)
      ]
    ]

    pub retry_lem :
        (times : ℕ) (builder : ExponentialBuilder) (attempt : ℕ → Result E A)
        → builder.max_times ≡ times
        → (i : ℕ) × AnswersAt times builder attempt i
    retry_lem zero builder attempt limit = elim (first_or_again zero builder attempt) [
      | inl at_once ↦ (0, at_once)
      | inr (e, failed, retried) ↦ (
        0,
        (
          (omega arith, λ j never. absurd (omega arith), inl refl),
          rw (backon.is_exhausted builder attempt retryable e failed limit) (sym failed),
          rw (backon.is_exhausted builder attempt retryable e failed limit) refl,
        ),
      )
    ]
    retry_lem (suc times) builder attempt limit =
        elim (first_or_again (suc times) builder attempt) [
          | inl at_once ↦ (0, at_once)
          | inr (e, failed, retried) ↦
              let (i, (stops, same, notified)) =
                retry_lem times (record builder { max_times = times }) (λ j. attempt (suc j))
                  refl in
              (
                suc i,
                (
                  Stops-suc times attempt e i failed retried stops,
                  rw (backon.again builder attempt retryable e times failed retried limit) same,
                  rw (backon.again builder attempt retryable e times failed retried limit)
                      (ap suc notified),
                ),
              )
        ]

module _ {TransportError Log : Type 0} (backon : Backon) (retryable : TransportError → Bool)
    (to_string : TransportError → String)
    (get_logs : Filter → ℕ → Result TransportError (List Log)) where
  -- With retries as backon documents them, a log query answers what the first of its attempts does
  -- that succeeds or is refused for good, or else the fourth, and counts each attempt before that one.
  pub get_logs_with_retries_lem :
      (filter : Filter) (m : Counters)
      → (i : ℕ) × Stops retryable 3 (get_logs filter) i
        × ((get_logs_with_retries backon retryable to_string get_logs filter m).0
            ≡ exhausted_from to_string (get_logs filter i))
        × ((get_logs_with_retries backon retryable to_string get_logs filter
              m).1.eth_get_logs_failed_total
            ≡ m.eth_get_logs_failed_total + i)
  unfolding get_logs_with_retries backoff
  get_logs_with_retries_lem filter m =
      let (i, (stops, same, notified)) =
        retry_lem retryable backon 3 backoff (get_logs filter) refl in
      (
        i,
        stops,
        ap (exhausted_from to_string) same,
        ap (λ n. m.eth_get_logs_failed_total + n) notified,
      )
