-- ===== src/Domain/Network.antt =====
-- src/domain/evm_network.rs and src/domain/errors.rs. An `Address` is the number of its 20 bytes,
-- a `Duration` its milliseconds, and a `str` the list of its code points.
pub mod Ids
pub mod Budgets
use Prim.Native.Char.{code}
use Prim.Native.String.{String}
use balances_watcher.Base.{
  ℕ, zero, suc, ◌+◌, ◌-◌, ◌*◌, ◌/◌, ◌%◌, Bool, ◌&&◌, List, [], ◌∷◌, Option, none, some, ltb, leb,
  if◌then◌else◌, ◌==◌, nat_eq, Result, ok, err,
}
use balances_watcher.Base.Word.{u64_modulus}

pub data EvmNetwork : Type 0 where
  eth bnb gnosis polygon base plasma arbitrum avalanche ink linea sepolia : EvmNetwork

pub data EvmError : Type 0 where
  unsupported_network : ℕ → EvmError
  invalid_network_id : EvmError

unfoldable pub chain_id : EvmNetwork → ℕ
chain_id eth = 1
chain_id bnb = 56
chain_id gnosis = 100
chain_id polygon = 137
chain_id base = 8453
chain_id plasma = 9745
chain_id arbitrum = 42161
chain_id avalanche = 43114
chain_id ink = 57073
chain_id linea = 59144
chain_id sepolia = 11155111

unfoldable pub native_token_address : EvmNetwork → ℕ
native_token_address n = 0xEeeeeEeeeEeEeeEeEeEeeEEEeeeeEeeeeeeeEEeE

unfoldable pub weth9_address : EvmNetwork → ℕ
weth9_address eth = 0xC02aaA39b223FE8D0A0e5C4F27eAD9083C756Cc2
weth9_address bnb = 0xbb4CdB9CBd36B01bD1cBaEBF2De08d9173bc095c
weth9_address gnosis = 0xe91D153E0b41518A2Ce8Dd3D7944Fa863463a97d
weth9_address polygon = 0x0d500b1d8e8ef31e21c99d1db9a6444d3adf1270
weth9_address base = 0x4200000000000000000000000000000000000006
weth9_address plasma = 0x6100e367285b01f48d07953803a2d8dca5d19873
weth9_address arbitrum = 0x82aF49447D8a07e3bd95BD0d56f35241523fBab1
weth9_address avalanche = 0xb31f66aa3c1e785363f0875a1b74e27b85fd66c7
weth9_address ink = 0x4200000000000000000000000000000000000006
weth9_address linea = 0xe5d7c2a44ffddf6b295a15c148167daaaf5cf34f
weth9_address sepolia = 0xfFf9976782d46CC05630D1f6eBAb18b2324d6B14

unfoldable pub block_time : EvmNetwork → ℕ
block_time eth = 12000
block_time bnb = 750
block_time gnosis = 5000
block_time polygon = 2000
block_time base = 200
block_time plasma = 1000
block_time arbitrum = 250
block_time avalanche = 2000
block_time ink = 1000
block_time linea = 5000
block_time sepolia = 12000

unfoldable pub max_block_lag : EvmNetwork → ℕ
max_block_lag eth = 3
max_block_lag bnb = 40
max_block_lag gnosis = 6
max_block_lag polygon = 15
max_block_lag base = 150
max_block_lag plasma = 30
max_block_lag arbitrum = 120
max_block_lag avalanche = 15
max_block_lag ink = 30
max_block_lag linea = 6
max_block_lag sepolia = 3

unfoldable pub backfill_chunk_blocks : EvmNetwork → ℕ
backfill_chunk_blocks eth = 2
backfill_chunk_blocks bnb = 13
backfill_chunk_blocks gnosis = 2
backfill_chunk_blocks polygon = 15
backfill_chunk_blocks base = 50
backfill_chunk_blocks plasma = 10
backfill_chunk_blocks arbitrum = 40
backfill_chunk_blocks avalanche = 5
backfill_chunk_blocks ink = 10
backfill_chunk_blocks linea = 2
backfill_chunk_blocks sepolia = 1

unfoldable pub try_from : ℕ → Result EvmError EvmNetwork
try_from id =
    if id == 1
    then ok eth
    else if id == 56
    then ok bnb
    else if id == 100
    then ok gnosis
    else if id == 137
    then ok polygon
    else if id == 8453
    then ok base
    else if id == 9745
    then ok plasma
    else if id == 42161
    then ok arbitrum
    else if id == 43114
    then ok avalanche
    else if id == 57073
    then ok ink
    else if id == 59144
    then ok linea
    else if id == 11155111
    then ok sepolia
    else err (unsupported_network id)

abbrev pub codes : String → List ℕ
codes String.[] = []
codes (String.◌∷◌ c s) = code c ∷ codes s

-- The digits of `str::parse::<u64>`: `none` on any other character and on overflow.
unfoldable pub parse_digits : ℕ → List ℕ → Option ℕ
parse_digits acc [] = some acc
parse_digits acc (c ∷ cs) =
    let next = acc * 10 + (c - b'0') in
    let rest = parse_digits next cs in
    if leb b'0' c && leb c b'9' && ltb next u64_modulus then rest else none

-- `str::parse::<u64>`: at least one digit, behind a `+` or not.
unfoldable pub parse_u64 : List ℕ → Option ℕ
unfolding parse_digits
parse_u64 [] = none
parse_u64 (c ∷ []) = parse_digits 0 (c ∷ [])
parse_u64 (c ∷ d ∷ cs) = if c == b'+' then parse_digits 0 (d ∷ cs) else parse_digits 0 (c ∷ d ∷ cs)

unfoldable pub from_str : List ℕ → Result EvmError EvmNetwork
from_str s = elim (parse_u64 s) [ none ↦ err invalid_network_id | some id ↦ try_from id ]

-- The decimal digits of a number below 10 ^ fuel, in front of a text.
unfoldable pub decimal : ℕ → ℕ → List ℕ → List ℕ
decimal zero n s = s
decimal (suc fuel) n s =
    let rest = decimal fuel (n / 10) ((b'0' + n % 10) ∷ s) in
    if ltb n 10 then (b'0' + n) ∷ s else rest

-- `fmt` of `Display`. A `u64` has at most 20 digits.
unfoldable pub fmt : EvmNetwork → List ℕ
unfolding decimal
fmt n = decimal 20 (chain_id n) []

-- `deserialize`: the deserializer's own answer is an argument, and `Error::custom` a parameter, for the
-- error of the number's parser and for that of the conversion.
module _ {ℓ} {DeError : Type ℓ} (custom_parse : DeError) (custom : EvmError → DeError) where
  unfoldable pub custom_network : Result EvmError EvmNetwork → Result DeError EvmNetwork
  custom_network (ok network) = ok network
  custom_network (err e) = err (custom e)

  unfoldable pub deserialize : Result DeError (List ℕ) → Result DeError EvmNetwork
  unfolding custom_network parse_u64 try_from
  deserialize (err e) = err e
  deserialize (ok s) = elim (parse_u64 s) [
    | none ↦ err custom_parse
    | some id ↦ custom_network (try_from id)
  ]
