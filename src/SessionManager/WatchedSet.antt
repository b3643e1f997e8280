-- ===== src/SessionManager/WatchedSet.antt =====
-- The members of the watched set of a session.
use balances_watcher.Base.{
  String, ℕ, ◌≡◌, refl, ◌⊎◌, inl, inr, Bool, false, ◌||◌, List, nat_beq, nat_eq, if◌then◌else◌,
  Result, ok, err,
}
use balances_watcher.Base.Set.{
  contains, insert, extend, contains-insert, contains-remove, contains-extend,
}
use balances_watcher.Domain.Network.{weth9_address, native_token_address}
use balances_watcher.Domain.Session.{Session}
use balances_watcher.TokenListFetcher.{FetcherError, unable_to_load_list, url_not_allowed}
use balances_watcher.SessionManager.{
  token_list_not_found, token_list_url_not_allowed, extend_tokens, fetch_and_extend_tokens,
}

-- What is watched for some tokens of the lists and some custom ones.
abbrev pub is_wanted : Session → List ℕ → List ℕ → ℕ → Bool
is_wanted session tokens custom_tokens t =
    if nat_beq (native_token_address session.network) t
    then false
    else (nat_beq (weth9_address session.network) t
        || (contains t tokens || contains t custom_tokens))

contains-extend_tokens :
    (session : Session) (tokens custom_tokens : List ℕ) (t : ℕ)
    → contains t (extend_tokens session tokens custom_tokens)
      ≡ is_wanted session tokens custom_tokens t
unfolding extend_tokens
contains-extend_tokens session tokens custom_tokens t =
    rw
      (
        contains-remove (native_token_address session.network) t
            (insert (weth9_address session.network) (extend tokens custom_tokens)),
        contains-insert (weth9_address session.network) t (extend tokens custom_tokens),
        contains-extend t tokens custom_tokens,
      )
      refl

-- Where the lists load, a token is watched exactly if it is not the native sentinel, and is the
-- wrapped token, in a list, or a custom one. Where they do not, the error names the list and, for a
-- URL that is not allowed, the reason.
pub fetch_and_extend_tokens_cases :
    (get_tokens : List String → Result FetcherError (List ℕ)) (session : Session)
    (urls : List String) (custom_tokens : List ℕ) (t : ℕ)
    → ((tokens : List ℕ) × (watched : List ℕ) × (get_tokens urls ≡ ok tokens)
        × (fetch_and_extend_tokens get_tokens session urls custom_tokens ≡ ok watched)
        × (contains t watched ≡ is_wanted session tokens custom_tokens t))
      ⊎ ((url : String) × (reason : String) × (((get_tokens urls
                ≡ err (unable_to_load_list url reason))
              × (fetch_and_extend_tokens get_tokens session urls custom_tokens
                  ≡ err (token_list_not_found url)))
            ⊎ ((get_tokens urls ≡ err (url_not_allowed url reason))
                × (fetch_and_extend_tokens get_tokens session urls custom_tokens
                    ≡ err (token_list_url_not_allowed url reason)))))
unfolding fetch_and_extend_tokens
fetch_and_extend_tokens_cases get_tokens session urls custom_tokens t =
    elim (cases (get_tokens urls)) [
      | inl (tokens, found) ↦ inl (
        tokens,
        extend_tokens session tokens custom_tokens,
        found,
        rw (found, fetch_and_extend_tokens),
        contains-extend_tokens session tokens custom_tokens t,
      )
      | inr (unable_to_load_list url reason, failed) ↦
          inr (url, reason, inl (failed, rw (failed, fetch_and_extend_tokens)))
      | inr (url_not_allowed url reason, failed) ↦
          inr (url, reason, inr (failed, rw (failed, fetch_and_extend_tokens)))
    ]
  where
    cases :
        (r : Result FetcherError (List ℕ))
        → ((tokens : List ℕ) × (r ≡ ok tokens)) ⊎ ((e : FetcherError) × (r ≡ err e))
    cases (ok tokens) = inl (tokens, refl)
    cases (err e) = inr (e, refl)
