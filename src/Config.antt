-- ===== src/Config.antt =====
-- src/config/network_config.rs, over the arguments of src/args.rs. A text that is parsed
-- is the list of its codes, and `usize` has 64 bits.
use balances_watcher.Base.{
  ℕ, ◌+◌, ◌-◌, ◌*◌, ◌<◌, ◌≡◌, Bool, ◌&&◌, List, [], ◌∷◌, Option, none, some, String, leb, ltb, ◌==◌,
  arith, inl, inr, Bool-cases, Option-cases, nat_eq,
}
use balances_watcher.Base.Word.{u64_modulus}
use balances_watcher.Domain.Network.{EvmNetwork, parse_u64, parse_digits}

pub record Args : Type 0 where
  pub bind : String
  pub network : EvmNetwork
  pub rpc_http_url : String
  pub rpc_ws_url : String
  pub token_list_path : String
  pub snapshot_interval : List ℕ
  pub max_watched_tokens_limit : List ℕ
  pub allow_private_token_lists : Bool

pub record NetworkConfig : Type 0 where
  pub network : EvmNetwork
  pub rpc_http_url : String
  pub snapshot_interval : ℕ
  pub max_watched_tokens_limit : ℕ
  pub allow_private_token_lists : Bool

abbrev default_snapshot_interval_secs : ℕ
default_snapshot_interval_secs = 60

abbrev default_max_watched_tokens_limit : ℕ
default_max_watched_tokens_limit = 1500

unfoldable unwrap_or : ℕ → Option ℕ → ℕ
unwrap_or default none = default
unwrap_or default (some n) = n

unfoldable pub from_args : Args → NetworkConfig
unfolding unwrap_or
from_args args = record {
  network = args.network;
  rpc_http_url = args.rpc_http_url;
  snapshot_interval = unwrap_or default_snapshot_interval_secs (parse_u64 args.snapshot_interval);
  max_watched_tokens_limit =
      unwrap_or default_max_watched_tokens_limit (parse_u64 args.max_watched_tokens_limit);
  allow_private_token_lists = args.allow_private_token_lists;
}

parse_digits-fits :
    (acc : ℕ) (cs : List ℕ) (n : ℕ)
    → acc < u64_modulus
    → parse_digits acc cs ≡ some n
    → n < u64_modulus
unfolding parse_digits
parse_digits-fits acc [] n small parsed = ground arith
parse_digits-fits acc (c ∷ cs) n small parsed =
    elim (Bool-cases (leb b'0' c && leb c b'9' && ltb (acc * 10 + (c - b'0')) u64_modulus)) [
      | inr refused ↦ absurd (ground arith)
      | inl digit ↦
          parse_digits-fits (acc * 10 + (c - b'0')) cs n (ground arith) (rw digit at parsed)
    ]

parse_u64-fits : (cs : List ℕ) (n : ℕ) → parse_u64 cs ≡ some n → n < u64_modulus
unfolding parse_u64
parse_u64-fits [] n parsed = absurd (ground arith)
parse_u64-fits (c ∷ []) n parsed = parse_digits-fits 0 (c ∷ []) n (omega arith) parsed
parse_u64-fits (c ∷ d ∷ cs) n parsed = elim (Bool-cases (c == b'+')) [
  | inl signed ↦ parse_digits-fits 0 (d ∷ cs) n (omega arith) (rw signed at parsed)
  | inr unsigned ↦ parse_digits-fits 0 (c ∷ d ∷ cs) n (omega arith) (rw unsigned at parsed)
]

unwrap_or-fits :
    (default : ℕ) (cs : List ℕ)
    → default < u64_modulus
    → unwrap_or default (parse_u64 cs) < u64_modulus
unfolding unwrap_or
unwrap_or-fits default cs small = elim (Option-cases (parse_u64 cs)) [
  | inl e ↦ rw e small
  | inr (n, e) ↦ rw e (parse_u64-fits cs n e)
]

-- Whatever the arguments are, the interval and the limit are numbers of 64 bits.
pub from_args-fits :
    (args : Args)
    → ((from_args args).snapshot_interval < u64_modulus)
      × ((from_args args).max_watched_tokens_limit < u64_modulus)
unfolding from_args
from_args-fits args = (
  unwrap_or-fits default_snapshot_interval_secs args.snapshot_interval (omega arith),
  unwrap_or-fits default_max_watched_tokens_limit args.max_watched_tokens_limit (omega arith),
)
