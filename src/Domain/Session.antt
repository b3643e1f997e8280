-- ===== src/Domain/Session.antt =====
-- src/domain/session.rs and src/domain/events.rs. A `Uuid` is its 128-bit number.
use Prim.Native.String.{String}
use balances_watcher.Base.{ℕ, ◌≡◌, ◌↔◌, Bool, true, ◌&&◌, List, arith, Eq, nat_eq, nat_beq}
use balances_watcher.Domain.Network.{EvmNetwork, chain_id}
use balances_watcher.Domain.Network.Ids.{chain_id-injective}

pub record Session : Type 0 where
  pub owner : ℕ
  pub network : EvmNetwork
  pub client_id : ℕ

-- The derived `PartialEq`: field by field.
unfoldable pub session_beq : Session → Session → Bool
session_beq s t =
    nat_beq s.owner t.owner
    && nat_beq (chain_id s.network) (chain_id t.network)
    && nat_beq s.client_id t.client_id

session-path :
    (s t : Session) → s.owner ≡ t.owner → s.network ≡ t.network → s.client_id ≡ t.client_id → s ≡ t
session-path s t p q r = λ i. record { owner = p i; network = q i; client_id = r i }

pub session_beq_iff : (s t : Session) → (session_beq s t ≡ true) ↔ (s ≡ t)
unfolding session_beq
session_beq_iff s t = (
  λ h.
      session-path s t (ground arith) (chain_id-injective s.network t.network (ground arith))
        (ground arith),
  λ e. rw e (ground arith),
)

instance abbrev pub session_eq : Eq Session
session_eq = record { beq = session_beq; beq_iff = session_beq_iff }

-- Events sent to SSE clients. A diff maps a token to the text of its balance.
pub data BalanceEvent : Type 0 where
  balance_update : List (ℕ × String) → BalanceEvent
  error : ℕ → String → BalanceEvent
