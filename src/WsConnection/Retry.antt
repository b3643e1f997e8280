-- ===== src/WsConnection/Retry.antt =====
-- Which attempt gives the subscription.
use balances_watcher.Base.{
  ℕ, zero, suc, ◌+◌, ◌≤◌, ◌<◌, min, ◌≡◌, refl, ap, ◌∙◌, true, List, [], ◌∷◌, none, some, Result, ok,
  err, length, arith, inr,
}
use balances_watcher.RpcClient.Errors.{Backon}
use balances_watcher.RpcClient.Retries.{retry_lem, Stops, Stops-unique, by_answer}
use balances_watcher.WsConnection.{
  retries_end, cancelled_after, usize_max, reconnect_backoff, notify_reconnect_error, notify_each,
  first_of, to_option, attempt_to_connect, with_retry, subscribe_heads, subscribe_blocks,
}

notify_each_lem : {E : Type 0} (es : List E) (total : ℕ) → notify_each es total ≡ total + length es
unfolding notify_each notify_reconnect_error
notify_each_lem [] total = omega arith
notify_each_lem (e ∷ es) total = omega (arith, notify_each_lem es (total + 1))

length-first_of : {E : Type 0} (n : ℕ) (es : List E) → length (first_of n es) ≡ min n (length es)
unfolding first_of
length-first_of zero es = omega arith
length-first_of (suc n) [] = omega arith
length-first_of (suc n) (e ∷ es) = omega (arith, length-first_of n es)

module _ {Provider Stream Error : Type 0} (backon : Backon) (connect_ws : ℕ → Result Error Provider)
    (subscribe : ℕ → Provider → Result Error Stream) where
  -- Attempt `i` fails, because the connection or the subscription does.
  abbrev pub Fails : ℕ → Type 0
  Fails i =
      (e : Error) × (attempt_to_connect backon connect_ws (subscribe_heads subscribe) i ≡ err e)

  attempt_answers :
      (n : ℕ) (provider : Provider) (stream : Stream)
      → connect_ws n ≡ ok provider
      → subscribe n provider ≡ ok stream
      → attempt_to_connect backon connect_ws (subscribe_heads subscribe) n
        ≡ ok (record { provider = provider; stream = stream })
  unfolding attempt_to_connect subscribe_heads
  attempt_answers n provider stream connected subscribed =
      rw (connected, attempt_to_connect, subscribed, subscribe_heads) refl

  -- With retries as backon documents them: if an attempt connects and subscribes, and every one of
  -- the fewer than 2 ^ 64 before it fails, and the token is not cancelled before, then its provider
  -- and its stream are the answer, and each attempt before it is counted once. If the token is
  -- cancelled first, there is no answer, and the attempts that have failed by then are counted.
  pub subscribe_blocks_cases :
      (n : ℕ) (provider : Provider) (stream : Stream) (total stopped : ℕ)
      → n ≤ usize_max
      → ((i : ℕ) → i < n → Fails i)
      → connect_ws n ≡ ok provider
      → subscribe n provider ≡ ok stream
      → (subscribe_blocks backon connect_ws subscribe retries_end total
          ≡ (some (record { provider = provider; stream = stream }), total + n))
        × (subscribe_blocks backon connect_ws subscribe (cancelled_after stopped) total
            ≡ (none, total + min stopped n))
  unfolding subscribe_blocks with_retry subscribe_heads attempt_to_connect reconnect_backoff
      to_option
  subscribe_blocks_cases n provider stream total stopped few failed connected subscribed =
      let attempt = attempt_to_connect backon connect_ws (subscribe_heads subscribe) in
      let (i, (stops, same, notified)) =
        retry_lem (λ e. true) backon usize_max reconnect_backoff attempt refl in
      let answer : attempt n ≡ ok (record { provider = provider; stream = stream }) =
        attempt_answers n provider stream connected subscribed in
      let at_n : Stops (λ e. true) usize_max attempt n = (
        few,
        λ j before. let (e, f) = failed j before in (e, f, refl),
        inr (by_answer (λ e. true) (attempt n) _ answer tt),
      ) in
      let here : i ≡ n = Stops-unique (λ e. true) usize_max attempt i n stops at_n in
      (
        λ j. (
          to_option ((same ∙ ap attempt here ∙ answer) j),
          (notify_each_lem _ total ∙ ap (λ k. total + k) (notified ∙ here)) j,
        ),
        λ j. (
          none,
          (notify_each_lem (first_of stopped _) total
                ∙ ap (λ k. total + k) (length-first_of stopped _)
                ∙ ap (λ k. total + min stopped k) (notified ∙ here))
              j,
        ),
      )
