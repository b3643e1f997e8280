-- ===== src/TokenListFetcher.antt =====
-- src/services/token_list_fetcher.rs, and the backoff of src/config/back_off_config.rs. Parameters are
-- the guard on URLs, the HTTP client by the number of the attempt, the parsers of JSON and of
-- addresses, and the text of a number. moka's cache is a map: its expiry happens between calls, on
-- which the theorems say nothing. The lists of one call are fetched at the same time; they are treated
-- in the order in which they finish.
pub mod Body
pub mod Client
pub mod Entries
pub mod Fetch
pub mod Union
mod Examples
use balances_watcher.Base.{
  ℕ, zero, suc, ◌+◌, Bool, true, List, [], ◌∷◌, ◌++◌, Option, none, some, String, Result, ok, err,
  ltb, if◌then◌else◌, length, ◌==◌, nat_eq,
}
use balances_watcher.Base.Text.{string_eq}
use Prim.Native.String
use balances_watcher.Base.Map as Map
use balances_watcher.Base.Set as Set
use balances_watcher.RpcClient.Errors.{Backon, ExponentialBuilder}
use balances_watcher.TokenListFetcher.Body.{Response, read_body_capped}

pub data FetcherError : Type 0 where
  unable_to_load_list : String → String → FetcherError
  url_not_allowed : String → String → FetcherError

pub record RawToken : Type 0 where
  pub address : String
  pub chain_id : ℕ

abbrev pub invalid_address_log_samples : ℕ
invalid_address_log_samples = 5

abbrev pub max_sample_chars : ℕ
max_sample_chars = 64

abbrev pub max_token_list_response_bytes : ℕ
max_token_list_response_bytes = 10485760

unfoldable pub get_token_list_fetcher_backoff : ExponentialBuilder
get_token_list_fetcher_backoff = record {
  min_delay = 1000;
  max_delay = 3000;
  max_times = 3;
  jitter = true;
}

-- `chars().take(n)`, collected.
unfoldable pub take_chars : ℕ → String → String
take_chars zero s = String.[]
take_chars (suc n) String.[] = String.[]
take_chars (suc n) (String.◌∷◌ c s) = String.◌∷◌ c (take_chars n s)

-- The tokens that were collected, and what the closure of `filter_map` captures.
pub record Collected : Type 0 where
  pub token_set : List ℕ
  pub invalid_count : ℕ
  pub invalid_samples : List String

unfoldable pub invalid_address : String → Collected → Collected
unfolding take_chars
invalid_address address c = record c {
  invalid_count = c.invalid_count + 1;
  invalid_samples =
      if ltb (length c.invalid_samples) invalid_address_log_samples
      then c.invalid_samples ++ take_chars max_sample_chars address ∷ []
      else c.invalid_samples;
}

module _ {Value : Type 0} (from_value : Value → Option RawToken) (parse_address : String → Option ℕ)
    (chain_id : ℕ) where
  -- The address of an entry for the chain.
  unfoldable pub filter_parsed : RawToken → Collected → Collected
  unfolding invalid_address Set.insert
  filter_parsed token c =
      if token.chain_id == chain_id
      then elim (parse_address token.address) [
        | some address ↦ record c { token_set = Set.insert address c.token_set }
        | none ↦ invalid_address token.address c
      ]
      else c

  unfoldable pub filter_entry : Value → Collected → Collected
  unfolding filter_parsed
  filter_entry raw c = elim (from_value raw) [ none ↦ c | some token ↦ filter_parsed token c ]

  unfoldable pub filter_entries : List Value → Collected → Collected
  unfolding filter_entry
  filter_entries [] c = c
  filter_entries (raw ∷ tokens) c = filter_entries tokens (filter_entry raw c)

-- The metrics that the fetcher increments.
pub record Counters : Type 0 where
  pub token_list_url_rejected_total : ℕ
  pub token_list_loaded_total : ℕ
  pub token_list_load_failed_total : ℕ
  pub token_list_invalid_addresses_total : ℕ

-- The cache, by URL.
pub record Fetcher : Type 0 where
  pub cache : List (String × List ℕ)
  pub counters : Counters

-- What the fetcher takes from elsewhere: the guard, which is `url_guard::validate_url`, and code that
-- is not in this repository.
pub record Services (TransportError Value : Type 0) : Type 1 where
  pub backon : Backon
  pub validate_url : String → Result String (Unit {0})
  pub send : String → ℕ → Result TransportError Response
  pub to_string : TransportError → String
  pub to_text : ℕ → String
  pub from_slice : List ℕ → Result String (List Value)
  pub from_value : Value → Option RawToken
  pub parse_address : String → Option ℕ
  pub chain_id : ℕ

module _ {TransportError Value : Type 0} (services : Services TransportError Value) where
  -- `send` is a GET and `error_for_status`. The retry is on any error.
  unfoldable pub fetch_with_backoff : String → Result FetcherError Response
  unfolding get_token_list_fetcher_backoff
  fetch_with_backoff url =
      elim (services.backon.retry get_token_list_fetcher_backoff (services.send url)
        (λ e. true)).0 [
          | ok response ↦ ok response
          | err e ↦ err (unable_to_load_list url (services.to_string e))
        ]

  unfoldable pub parse_body : String → List ℕ → Result FetcherError (List Value × ℕ)
  parse_body url body = elim (services.from_slice body) [
    | ok tokens ↦ ok (tokens, length body)
    | err e ↦ err (unable_to_load_list url e)
  ]

  unfoldable pub load_response : String → Response → Result FetcherError (List Value × ℕ)
  unfolding read_body_capped parse_body
  load_response url response =
      elim (read_body_capped services.to_text response max_token_list_response_bytes) [
        | ok body ↦ parse_body url body
        | err e ↦ err (unable_to_load_list url e)
      ]

  unfoldable pub load_and_parse : String → Result FetcherError (List Value × ℕ)
  unfolding fetch_with_backoff load_response
  load_and_parse url = elim (fetch_with_backoff url) [
    | ok response ↦ load_response url response
    | err e ↦ err e
  ]

  unfoldable pub fetch_list : String → Counters → Result FetcherError (List Value) × Counters
  unfolding load_and_parse
  fetch_list url m = elim (load_and_parse url) [
    | ok (tokens, bytes) ↦
        (ok tokens, record m { token_list_loaded_total = m.token_list_loaded_total + 1 })
    | err e ↦
        (err e, record m { token_list_load_failed_total = m.token_list_load_failed_total + 1 })
  ]

  -- What follows the guard.
  unfoldable pub filter_list :
      Result FetcherError (List Value) × Counters → Result FetcherError (List ℕ) × Counters
  unfolding filter_entries
  filter_list (err e, m) = (err e, m)
  filter_list (ok tokens, m) =
      let c =
        filter_entries services.from_value services.parse_address services.chain_id tokens
          (record { token_set = []; invalid_count = 0; invalid_samples = [] }) in
      (
        ok c.token_set,
        record m {
          token_list_invalid_addresses_total =
              m.token_list_invalid_addresses_total + c.invalid_count;
        },
      )

  unfoldable pub fetch_list_and_filter_by_chain :
      String → Counters → Result FetcherError (List ℕ) × Counters
  unfolding fetch_list filter_list
  fetch_list_and_filter_by_chain url m = elim (services.validate_url url) [
    | err reason ↦ (
      err (url_not_allowed url reason),
      record m { token_list_url_rejected_total = m.token_list_url_rejected_total + 1 },
    )
    | ok passed ↦ filter_list (fetch_list url m)
  ]

  -- A failed fetch is not cached.
  unfoldable pub store_fetched :
      String
      → Result FetcherError (List ℕ) × Counters
      → Fetcher
      → Result FetcherError (List ℕ) × Fetcher
  unfolding Map.insert
  store_fetched url (err e, m) f = (err e, record f { counters = m })
  store_fetched url (ok tokens, m) f =
      (ok tokens, record { cache = Map.insert url tokens f.cache; counters = m })

  unfoldable pub try_get_with : String → Fetcher → Result FetcherError (List ℕ) × Fetcher
  unfolding Map.lookup fetch_list_and_filter_by_chain store_fetched
  try_get_with url f = elim (Map.lookup url f.cache) [
    | some tokens ↦ (ok tokens, f)
    | none ↦ store_fetched url (fetch_list_and_filter_by_chain url f.counters) f
  ]

  -- `try_join_all` over the URLs in the order in which their lists are resolved, the first error being
  -- the answer, and the union of the sets.
  unfoldable pub join_all : List String → List ℕ → Fetcher → Result FetcherError (List ℕ) × Fetcher
  unfolding try_get_with Set.extend
  join_all [] union f = (ok union, f)
  join_all (url ∷ urls) union f =
      let (answer, f') = try_get_with url f in
      elim answer [ err e ↦ (err e, f') | ok tokens ↦ join_all urls (Set.extend union tokens) f' ]

  -- `finish` puts the URLs into this order.
  unfoldable pub get_tokens :
      (List String → List String) → List String → Fetcher → Result FetcherError (List ℕ) × Fetcher
  unfolding join_all
  get_tokens finish urls f = join_all (finish urls) [] f
