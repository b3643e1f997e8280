-- ===== src/RpcClient/Loop.antt =====
-- A retry loop without delays, which has the laws that are asked of backon.
use balances_watcher.Base.{
  ℕ, zero, suc, ◌≡◌, refl, Bool, true, false, List, [], ◌∷◌, Result, ok, err, if◌then◌else◌,
}
use balances_watcher.RpcClient.Errors.{Backon}

abbrev pub retry_step :
    {A E : Type 0} → Result E A → Result E A × List E → (E → Bool) → Result E A × List E
retry_step (ok a) rest p = (ok a, [])
retry_step (err e) (answer, notified) p = if p e then (answer, e ∷ notified) else (err e, [])

abbrev pub retry_loop : {A E : Type 0} → ℕ → (ℕ → Result E A) → (E → Bool) → Result E A × List E
retry_loop zero attempt p = (attempt 0, [])
retry_loop (suc times) attempt p =
    retry_step (attempt 0) (retry_loop times (λ i. attempt (suc i)) p) p

pub loop_succeeds :
    {A E : Type 0} (times : ℕ) (attempt : ℕ → Result E A) (p : E → Bool) (a : A)
    → attempt 0 ≡ ok a
    → retry_loop times attempt p ≡ (ok a, [])
loop_succeeds zero attempt p a h = rw h refl
loop_succeeds (suc times) attempt p a h = rw h refl

pub loop_refused :
    {A E : Type 0} (times : ℕ) (attempt : ℕ → Result E A) (p : E → Bool) (e : E)
    → attempt 0 ≡ err e
    → p e ≡ false
    → retry_loop times attempt p ≡ (err e, [])
loop_refused zero attempt p e h final = rw h refl
loop_refused (suc times) attempt p e h final = rw (h, final) refl

pub loop_exhausted :
    {A E : Type 0} (times : ℕ) (attempt : ℕ → Result E A) (p : E → Bool) (e : E)
    → attempt 0 ≡ err e
    → times ≡ 0
    → retry_loop times attempt p ≡ (err e, [])
loop_exhausted times attempt p e h none_left = rw (none_left, h) refl

pub loop_again :
    {A E : Type 0} (most : ℕ) (attempt : ℕ → Result E A) (p : E → Bool) (e : E) (times : ℕ)
    → attempt 0 ≡ err e
    → p e ≡ true
    → most ≡ suc times
    → retry_loop most attempt p
      ≡ (let (r, notified) = retry_loop times (λ i. attempt (suc i)) p in (r, e ∷ notified))
loop_again most attempt p e times h retried more = rw (more, h, retried) refl

abbrev pub without_delay : Backon
without_delay = record {
  retry = λ builder attempt p. retry_loop builder.max_times attempt p;
  succeeds = λ builder attempt p a h. loop_succeeds builder.max_times attempt p a h;
  is_refused = λ builder attempt p e h final. loop_refused builder.max_times attempt p e h final;
  is_exhausted =
      λ builder attempt p e h none_left. loop_exhausted builder.max_times attempt p e h none_left;
  again = λ builder attempt p e times h retried more.
      loop_again builder.max_times attempt p e times h retried more;
}
