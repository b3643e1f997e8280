-- ===== src/TokenListFetcher/Examples.antt =====
-- The theorems on token lists, applied to one list with an entry for Gnosis and one for Ethereum.
use balances_watcher.Base.{
  ℕ, ◌+◌, ◌≤◌, ◌≡◌, refl, ◌⊎◌, inl, inr, ◌↔◌, Bool, true, false, List, [], ◌∷◌, Option, none, some,
  String, Result, ok, err, ◌==◌, arith, Memᴰ, if◌then◌else◌, nat_eq,
}
use mathlib.Core.List.Permᴰ
use balances_watcher.Base.Text.{string_eq}
use balances_watcher.Base.Map.{lookup}
use balances_watcher.Base.Set.{contains}
use balances_watcher.RpcClient.Loop.{without_delay}
use balances_watcher.TokenListFetcher.Body.{
  Response, read_body_capped, Brings, read_body_capped_iff,
}
use balances_watcher.TokenListFetcher.Union.{IsSound, Fails, InSome, get_tokens_cases}
use balances_watcher.TokenListFetcher.{
  FetcherError, RawToken, Counters, Fetcher, Services, fetch_list_and_filter_by_chain, get_tokens,
}

abbrev to_text : ℕ → String
to_text n = if n == 4 then "4" else "many"

abbrev served : Response
served = record { content_length = none; bytes_stream = ok (1 ∷ 2 ∷ []) ∷ ok (3 ∷ []) ∷ [] }

abbrev cap : ℕ
cap = 4

abbrev whole : List ℕ
whole = 1 ∷ 2 ∷ 3 ∷ []

read_body_capped_iff_example : read_body_capped to_text served cap ≡ ok whole ↔ (
    ((len : ℕ) → served.content_length ≡ some len → len ≤ cap)
    × Brings to_text cap served.bytes_stream [] whole)
read_body_capped_iff_example = read_body_capped_iff to_text served cap whole

too_long_is_refused :
    read_body_capped to_text served 2 ≡ err "token list response exceeded many bytes cap"
unfolding read_body_capped
too_long_is_refused = refl

-- A list is the text of its addresses, with their chains.
abbrev services : Services String RawToken
services = record {
  backon = without_delay;
  validate_url =
      λ url. if url == "https://files.cow.fi/list" then ok tt else err "host is not allowed";
  send = λ url attempt. ok served;
  to_string = λ e. e;
  to_text = to_text;
  from_slice = λ body. ok (
      record { address = "0x64"; chain_id = 100 } ∷ record { address = "0x65"; chain_id = 1 } ∷ []);
  from_value = λ raw. some raw;
  parse_address = λ text. if text == "0x64" then some 100 else none;
  chain_id = 100;
}

abbrev no_counts : Counters
no_counts = record {
  token_list_url_rejected_total = 0;
  token_list_loaded_total = 0;
  token_list_load_failed_total = 0;
  token_list_invalid_addresses_total = 0;
}

abbrev fetcher : Fetcher
fetcher = record { cache = []; counters = no_counts }

abbrev list_url : String
list_url = "https://files.cow.fi/list"

abbrev urls : List String
urls = list_url ∷ []

abbrev in_order : List String → List String
in_order lists = lists

the_list : (fetch_list_and_filter_by_chain services list_url no_counts).0 ≡ ok (100 ∷ [])
unfolding fetch_list_and_filter_by_chain balances_watcher.Base.Set.contains
the_list = refl

nothing_cached : IsSound services fetcher
unfolding lookup
nothing_cached url set never = absurd cc

get_tokens_cases_example :
    IsSound services (get_tokens services in_order urls fetcher).1
    × (((tokens : List ℕ) × ((get_tokens services in_order urls fetcher).0 ≡ ok tokens)
          × ((url : String) → Memᴰ url urls → services.validate_url url ≡ ok tt)
          × ((address : ℕ) → contains address tokens ≡ true ↔ InSome services urls address))
        ⊎ ((e : FetcherError) × (url : String) × ((get_tokens services in_order urls fetcher).0
              ≡ err e)
            × Memᴰ url urls
            × Fails services url e))
get_tokens_cases_example =
    get_tokens_cases services in_order urls fetcher (Permᴰ.refl urls) nothing_cached
