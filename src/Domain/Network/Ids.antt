-- ===== src/Domain/Network/Ids.antt =====
-- Chain ids name the networks one to one, as numbers and as text.
use balances_watcher.Base.{
  ℕ, ◌≡◌, refl, sym, ◌∙◌, ◌≢◌, ◌↔◌, List, none, some, arith, nat_eq, Result, ok, err, inl, inr,
  Option-cases,
}
use balances_watcher.Domain.Network.{
  EvmNetwork, eth, bnb, gnosis, polygon, base, plasma, arbitrum, avalanche, ink, linea, sepolia,
  EvmError, unsupported_network, invalid_network_id, chain_id, try_from, from_str, parse_u64, fmt,
  decimal, weth9_address, native_token_address, deserialize, custom_network,
}

try_from-ok : (id : ℕ) (n : EvmNetwork) → try_from id ≡ ok n → chain_id n ≡ id
unfolding try_from chain_id
try_from-ok id n h = ground arith

try_from-chain_id : (n : EvmNetwork) → try_from (chain_id n) ≡ ok n
unfolding try_from chain_id
try_from-chain_id eth = refl
try_from-chain_id _ = refl

pub chain_id-injective : (m n : EvmNetwork) → chain_id m ≡ chain_id n → m ≡ n
chain_id-injective m n h = ok-injective (sym (try_from-chain_id m) ∙ rw h (try_from-chain_id n))
  where
    ok-injective : {a b : EvmNetwork} → ◌≡◌ {A = Result EvmError EvmNetwork} (ok a) (ok b) → a ≡ b
    ok-injective e = cc

-- `try_from` accepts a number as a network exactly when it is that network's chain id.
pub try_from_iff : (id : ℕ) (n : EvmNetwork) → (try_from id ≡ ok n) ↔ (chain_id n ≡ id)
try_from_iff id n = (try_from-ok id n, λ h. rw (← h) (try_from-chain_id n))

-- A number that is no network's chain id is refused with an error that carries the number.
pub try_from-unsupported :
    (id : ℕ) → ((n : EvmNetwork) → chain_id n ≢ id) → try_from id ≡ err (unsupported_network id)
unfolding try_from chain_id
try_from-unsupported id h = ground (
  arith,
  h eth,
  h bnb,
  h gnosis,
  h polygon,
  h base,
  h plasma,
  h arbitrum,
  h avalanche,
  h ink,
  h linea,
  h sepolia,
)

-- What `fmt` prints, `from_str` reads back as the same network.
pub from_str-fmt : (n : EvmNetwork) → from_str (fmt n) ≡ ok n
unfolding from_str fmt decimal parse_u64 try_from chain_id
from_str-fmt eth = refl
from_str-fmt _ = refl

-- A text that is no `u64` is refused as an invalid id, and any other text as its number is.
pub from_str_cases :
    (s : List ℕ)
    → ((parse_u64 s ≡ none) → from_str s ≡ err invalid_network_id)
      × ((id : ℕ) → parse_u64 s ≡ some id → from_str s ≡ try_from id)
unfolding from_str
from_str_cases s = (λ e. rw (e, from_str), λ id e. rw (e, from_str))

-- On no network is the address of the wrapped token the native sentinel.
pub weth9-ne-native : (n : EvmNetwork) → weth9_address n ≢ native_token_address n
unfolding weth9_address native_token_address
weth9-ne-native eth = omega arith
weth9-ne-native _ = omega arith

-- A text deserializes to a network exactly if it parses as it.
pub deserialize_iff {ℓ} :
    {DeError : Type ℓ} (custom_parse : DeError) (custom : EvmError → DeError) (s : List ℕ)
    (n : EvmNetwork)
    → (deserialize custom_parse custom (ok s) ≡ ok n) ↔ (from_str s ≡ ok n)
unfolding deserialize from_str custom_network
deserialize_iff custom_parse custom s n = elim (Option-cases (parse_u64 s)) [
  | inl e ↦ rw (e, deserialize, from_str) (ground arith)
  | inr (id, e) ↦ rw (e, deserialize, from_str) (ground arith)
]
