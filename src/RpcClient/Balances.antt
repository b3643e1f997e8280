-- ===== src/RpcClient/Balances.antt =====
-- Which balances the chunks of a snapshot bring.
use balances_watcher.Base.{
  ℕ, zero, suc, ◌+◌, ◌≡◌, refl, ap, ◌∙◌, inl, inr, true, false, List, [], ◌∷◌, Option, none, some,
  Result, ok, err, Bool-cases, length, arith, nat_beq, nat_eq,
}
use balances_watcher.Base.Map.{lookup, insert, lookup-insert, lookup-insert_self}
use balances_watcher.Base.Set.{contains}
use balances_watcher.RpcClient.{Counters, insert_answers, map_balance_result}

module _ {ℓ} {A : Type ℓ} where
  -- `get`.
  abbrev pub get : ℕ → List A → Option A
  get i [] = none
  get zero (x ∷ xs) = some x
  get (suc i) (x ∷ xs) = get i xs

abbrev pub IsDistinct : List ℕ → Type 0
IsDistinct [] = Unit
IsDistinct (x ∷ xs) = (contains x xs ≡ false) × IsDistinct xs

not_here :
    (token t : ℕ) (tokens : List ℕ)
    → contains token (t ∷ tokens) ≡ false
    → (nat_beq t token ≡ false) × (contains token tokens ≡ false)
unfolding contains
not_here token t tokens other = ground arith

head_absent :
    (t token : ℕ) (tokens : List ℕ)
    → IsDistinct (t ∷ tokens)
    → ◌≡◌ {A = Option ℕ} (some t) (some token)
    → contains token tokens ≡ false
head_absent t token tokens distinct same = let here : t ≡ token = cc in rw (← here) distinct.0

get-contains :
    (i token : ℕ) (tokens : List ℕ) → get i tokens ≡ some token → contains token tokens ≡ true
unfolding contains
get-contains i token [] at_i = absurd cc
get-contains zero token (t ∷ tokens) at_i = ground (arith, at_i)
get-contains (suc i) token (t ∷ tokens) at_i = ground (arith, get-contains i token tokens at_i)

tail_differs :
    (t token i : ℕ) (tokens : List ℕ)
    → contains t tokens ≡ false
    → get i tokens ≡ some token
    → nat_beq t token ≡ false
tail_differs t token i tokens distinct at_i = elim (Bool-cases (nat_beq t token)) [
  | inl same ↦ absurd (
      let here : t ≡ token = ground arith in
      let there : contains t tokens ≡ true = rw here (get-contains i token tokens at_i) in cc)
  | inr other ↦ other
]

module _ {Failure : Type 0} where
  -- The balance in the answer of a token's own call.
  abbrev pub answered : Option (Result Failure ℕ) → Option ℕ
  answered (some (ok balance)) = some balance
  answered (some (err failure)) = none
  answered none = none

  insert_answers-other :
      (token : ℕ) (tokens : List ℕ) (results : List (Result Failure ℕ)) (balances : List (ℕ × ℕ))
      (m : Counters)
      → contains token tokens ≡ false
      → lookup token (insert_answers tokens results (balances, m)).0 ≡ lookup token balances
  unfolding insert_answers contains
  insert_answers-other token [] results balances m other = refl
  insert_answers-other token (t ∷ tokens) [] balances m other =
      insert_answers-other token tokens [] balances _ (not_here token t tokens other).1
  insert_answers-other token (t ∷ tokens) (ok b ∷ results) balances m other =
      insert_answers-other token tokens results (insert t b balances) m
        (not_here token t tokens other).1
      ∙ rw (lookup-insert t token b balances, (not_here token t tokens other).0) refl
  insert_answers-other token (t ∷ tokens) (err f ∷ results) balances m other =
      insert_answers-other token tokens results balances _ (not_here token t tokens other).1

  -- With as many failures counted as tokens are left without a balance.
  insert_answers_at :
      (tokens : List ℕ) (results : List (Result Failure ℕ)) (balances : List (ℕ × ℕ)) (m : Counters)
      (i token : ℕ)
      → IsDistinct tokens
      → lookup token balances ≡ none
      → get i tokens ≡ some token
      → lookup token (insert_answers tokens results (balances, m)).0 ≡ answered (get i results)
  unfolding insert_answers
  insert_answers_at [] results balances m i token distinct absent at_i = absurd cc
  insert_answers_at (t ∷ tokens) [] balances m zero token distinct absent at_i =
      insert_answers-other token tokens [] balances _ (head_absent t token tokens distinct at_i)
      ∙ absent
  insert_answers_at (t ∷ tokens) (ok b ∷ results) balances m zero token distinct absent at_i =
      insert_answers-other token tokens results (insert t b balances) m
        (head_absent t token tokens distinct at_i)
      ∙ (let here : t ≡ token = cc in rw here (lookup-insert_self token b balances))
  insert_answers_at (t ∷ tokens) (err f ∷ results) balances m zero token distinct absent at_i =
      insert_answers-other token tokens results balances _
        (head_absent t token tokens distinct at_i)
      ∙ absent
  insert_answers_at (t ∷ tokens) [] balances m (suc i) token distinct absent at_i =
      insert_answers_at tokens [] balances _ i token distinct.1 absent at_i
  insert_answers_at (t ∷ tokens) (ok b ∷ results) balances m (suc i) token distinct absent at_i =
      insert_answers_at tokens results (insert t b balances) m i token distinct.1
        (rw (lookup-insert t token b balances, tail_differs t token i tokens distinct.0 at_i)
          absent)
        at_i
  insert_answers_at (t ∷ tokens) (err f ∷ results) balances m (suc i) token distinct absent at_i =
      insert_answers_at tokens results balances _ i token distinct.1 absent at_i

length-insert_new :
    (k v : ℕ) (m : List (ℕ × ℕ)) → lookup k m ≡ none → length (insert k v m) ≡ suc (length m)
unfolding lookup insert
length-insert_new k v [] absent = refl
length-insert_new k v ((j, w) ∷ m) absent = elim (Bool-cases (nat_beq j k)) [
  | inl here ↦ absurd (ground arith)
  | inr other ↦ rw other (ap suc (length-insert_new k v m (ground (arith, other, absent))))
]

IsAbsent : List ℕ → List (ℕ × ℕ) → Type 0
IsAbsent tokens balances = (token : ℕ) → contains token tokens ≡ true → lookup token balances ≡ none

IsAbsent-tail :
    (t : ℕ) (tokens : List ℕ) (balances : List (ℕ × ℕ))
    → IsAbsent (t ∷ tokens) balances
    → IsAbsent tokens balances
unfolding IsAbsent contains
IsAbsent-tail t tokens balances absent token held = absent token (ground (arith, held))

IsAbsent-insert :
    (t v : ℕ) (tokens : List ℕ) (balances : List (ℕ × ℕ))
    → contains t tokens ≡ false
    → IsAbsent (t ∷ tokens) balances
    → IsAbsent tokens (insert t v balances)
unfolding IsAbsent contains
IsAbsent-insert t v tokens balances distinct absent token held =
    elim (Bool-cases (nat_beq t token)) [
      | inl same ↦ absurd (
          let here : t ≡ token = ground arith in
          let there : contains t tokens ≡ true = rw here held in cc)
      | inr other ↦
          rw (lookup-insert t token v balances, other) (absent token (ground (arith, held)))
    ]

absent_head :
    (t : ℕ) (tokens : List ℕ) (balances : List (ℕ × ℕ))
    → IsAbsent (t ∷ tokens) balances
    → lookup t balances ≡ none
unfolding IsAbsent contains
absent_head t tokens balances absent = absent t (ground arith)

nothing_yet : (tokens : List ℕ) → IsAbsent tokens []
unfolding IsAbsent lookup
nothing_yet tokens token held = refl

module _ {Failure : Type 0} where
  insert_answers-counts :
      (tokens : List ℕ) (results : List (Result Failure ℕ)) (balances : List (ℕ × ℕ)) (m : Counters)
      → IsDistinct tokens
      → IsAbsent tokens balances
      → length (insert_answers tokens results (balances, m)).0
          + (insert_answers tokens results (balances, m)).1.multicall_subcall_failed_total
        ≡ length tokens + (length balances + m.multicall_subcall_failed_total)
  unfolding insert_answers
  insert_answers-counts [] results balances m distinct absent = omega arith
  insert_answers-counts (t ∷ tokens) [] balances m distinct absent = omega (
    arith,
    insert_answers-counts tokens [] balances
        (record m { multicall_subcall_failed_total = m.multicall_subcall_failed_total + 1 })
        distinct.1 (IsAbsent-tail t tokens balances absent),
  )
  insert_answers-counts (t ∷ tokens) (ok b ∷ results) balances m distinct absent = omega (
    arith,
    length-insert_new t b balances (absent_head t tokens balances absent),
    insert_answers-counts tokens results (insert t b balances) m distinct.1
        (IsAbsent-insert t b tokens balances distinct.0 absent),
  )
  insert_answers-counts (t ∷ tokens) (err f ∷ results) balances m distinct absent = omega (
    arith,
    insert_answers-counts tokens results balances
        (record m { multicall_subcall_failed_total = m.multicall_subcall_failed_total + 1 })
        distinct.1 (IsAbsent-tail t tokens balances absent),
  )

  -- For tokens without duplicates, the balance of each token is the one in its own call's answer, and
  -- the failures counted and the balances are together as many as the tokens and the failures before.
  pub map_balance_result_lem :
      (tokens : List ℕ) (results : List (Result Failure ℕ)) (m : Counters)
      → IsDistinct tokens
      → ((i token : ℕ)
          → get i tokens ≡ some token
          → lookup token (map_balance_result tokens results m).0 ≡ answered (get i results))
        × (length (map_balance_result tokens results m).0
              + (map_balance_result tokens results m).1.multicall_subcall_failed_total
            ≡ length tokens + m.multicall_subcall_failed_total)
  unfolding map_balance_result lookup
  map_balance_result_lem tokens results m distinct = (
    λ i token at_i. insert_answers_at tokens results [] m i token distinct refl at_i,
    omega (arith, insert_answers-counts tokens results [] m distinct (nothing_yet tokens)),
  )
