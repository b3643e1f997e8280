-- ===== src/WsConnection/Examples.antt =====
-- The theorem on reconnecting, applied to a node that refuses the first connection.
use balances_watcher.Base.{
  ℕ, zero, suc, ◌+◌, ◌<◌, min, ◌≡◌, refl, Bool, true, none, some, Result, ok, err, arith,
}
use balances_watcher.RpcClient.Loop.{without_delay}
use balances_watcher.WsConnection.{
  retries_end, cancelled_after, subscribe_blocks, attempt_to_connect,
}
use balances_watcher.WsConnection.Retry.{Fails, subscribe_blocks_cases}

-- A provider is the number of its connection.
abbrev connect_ws : ℕ → Result Bool ℕ
connect_ws zero = err true
connect_ws (suc i) = ok i

abbrev subscribe : ℕ → ℕ → Result Bool ℕ
subscribe i provider = ok 40

first-Fails : (i : ℕ) → i < 1 → Fails without_delay connect_ws subscribe i
unfolding attempt_to_connect
first-Fails zero h = (true, refl)
first-Fails (suc i) h = absurd (omega arith)

subscribe_blocks_cases_example :
    (subscribe_blocks without_delay connect_ws subscribe retries_end 5
      ≡ (some (record { provider = 0; stream = 40 }), 5 + 1))
    × (subscribe_blocks without_delay connect_ws subscribe (cancelled_after 3) 5
        ≡ (none, 5 + min 3 1))
subscribe_blocks_cases_example =
    subscribe_blocks_cases without_delay connect_ws subscribe 1 0 40 5 3 (omega arith) first-Fails
      refl refl
