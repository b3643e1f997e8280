-- ===== src/TokenListFetcher/Entries.antt =====
-- Which addresses a list has for the chain.
use balances_watcher.Base.{
  ℕ, ◌≡◌, refl, ap, ◌⊎◌, inl, inr, ◌↔◌, true, List, [], ◌∷◌, Option, some, String, arith, nat_eq,
  nat_beq, Bool-cases, Option-cases, Memᴰ,
}
use balances_watcher.Base.Set.{contains, insert, contains-insert}
use balances_watcher.TokenListFetcher.{
  RawToken, Collected, invalid_address, filter_parsed, filter_entry, filter_entries,
}

contains-insert_to :
    (a b : ℕ) (xs : List ℕ) → contains b (insert a xs) ≡ true → (a ≡ b) ⊎ (contains b xs ≡ true)
contains-insert_to a b xs h = elim (Bool-cases (nat_beq a b)) [
  | inl same ↦ inl (ground (arith, same))
  | inr other ↦ inr (ground (arith, contains-insert a b xs, other, h))
]

contains-insert_from :
    (a b : ℕ) (xs : List ℕ) → (a ≡ b) ⊎ (contains b xs ≡ true) → contains b (insert a xs) ≡ true
contains-insert_from a b xs h = ground (arith, contains-insert a b xs, h)

module _ {Value : Type 0} (from_value : Value → Option RawToken) (parse_address : String → Option ℕ)
    (chain_id : ℕ) where
  -- An entry that parses, is for the chain, and has the address.
  abbrev pub IsFor : Value → ℕ → Type 0
  IsFor raw address =
      (token : RawToken) × (from_value raw ≡ some token)
      × (token.chain_id ≡ chain_id)
      × (parse_address token.address ≡ some address)

  parsed_iff :
      (token : RawToken) (c : Collected) (address : ℕ)
      → contains address (filter_parsed from_value parse_address chain_id token c).token_set ≡ true
        ↔ ((contains address c.token_set ≡ true)
            ⊎ ((token.chain_id ≡ chain_id) × (parse_address token.address ≡ some address)))
  unfolding filter_parsed invalid_address
  parsed_iff token c address = elim (Bool-cases (nat_beq token.chain_id chain_id)) [
    | inr other ↦
        rw (other, filter_parsed)
          (λ h. inl h, λ h. elim h [ inl old ↦ old | inr (same, _) ↦ absurd (ground arith) ])
    | inl here ↦ elim (Option-cases (parse_address token.address)) [
      | inl bad ↦
          rw (here, bad, filter_parsed)
            (λ h. inl h, λ h. elim h [ inl old ↦ old | inr (_, never) ↦ absurd cc ])
      | inr (found, good) ↦
          rw (here, good, filter_parsed)
            (
              λ h. elim (contains-insert_to found address c.token_set h) [
                | inl same ↦ inr (ground (arith, here), ap some same)
                | inr old ↦ inl old
              ],
              λ h. elim h [
                | inl old ↦ contains-insert_from found address c.token_set (inr old)
                | inr (_, same) ↦
                    contains-insert_from found address c.token_set
                      (inl (let e : found ≡ address = cc in e))
              ],
            )
    ]
  ]

  entry_iff :
      (raw : Value) (c : Collected) (address : ℕ)
      → contains address (filter_entry from_value parse_address chain_id raw c).token_set ≡ true
        ↔ ((contains address c.token_set ≡ true) ⊎ IsFor raw address)
  unfolding filter_entry
  entry_iff raw c address = elim (Option-cases (from_value raw)) [
    | inl bad ↦
        rw (bad, filter_entry)
          (λ h. inl h, λ h. elim h [ inl old ↦ old | inr (token, never, _, _) ↦ absurd cc ])
    | inr (token, parsed) ↦
        rw (parsed, filter_entry)
          (
            λ h. elim ((parsed_iff token c address).0 h) [
              | inl old ↦ inl old
              | inr (same, good) ↦ inr (token, refl, same, good)
            ],
            λ h. (parsed_iff token c address).1 (elim h [
              | inl old ↦ inl old
              | inr (other, same, on_chain, good) ↦
                  let back : token ≡ other = cc in inr (rw back on_chain, rw back good)
            ]),
          )
  ]

  pub entries_iff :
      (tokens : List Value) (c : Collected) (address : ℕ)
      → contains address (filter_entries from_value parse_address chain_id tokens c).token_set
          ≡ true
        ↔ ((contains address c.token_set ≡ true)
            ⊎ ((raw : Value) × Memᴰ raw tokens × IsFor raw address))
  unfolding filter_entries
  entries_iff [] c address =
      (λ h. inl h, λ h. elim h [ inl old ↦ old | inr (raw, never, _) ↦ elim never [ ] ])
  entries_iff (raw ∷ tokens) c address =
      let c' = filter_entry from_value parse_address chain_id raw c in
      let rest = entries_iff tokens c' address in
      let first = entry_iff raw c address in
      (
        λ h. elim (rest.0 h) [
          | inl sooner ↦ elim (first.0 sooner) [
            | inl old ↦ inl old
            | inr here ↦ inr (raw, Memᴰ.head refl, here)
          ]
          | inr (later, listed, for_chain) ↦ inr (later, Memᴰ.tail listed, for_chain)
        ],
        λ h. rest.1 (elim h [
          | inl old ↦ inl (first.1 (inl old))
          | inr (entry, listed, for_chain) ↦ elim listed [
            | Memᴰ.head same ↦ inl (first.1 (inr (rw (← same) for_chain)))
            | Memᴰ.tail later ↦ inr (entry, later, for_chain)
          ]
        ]),
      )
