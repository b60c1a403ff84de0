-- ===== src/Breaker/Threshold.antt =====
-- When failures open the circuit breaker (topolib/circuit_breaker.go): an independent count of the
-- longest row of failures against `doClosed`.
use topographer.Base.{
  ℕ, suc, ◌+◌, ◌≤◌, ◌<◌, ◌^◌, ◌≡◌, ◌↔◌, refl, Option, none, some, List, [], ◌∷◌, arith, map,
  if◌then◌else◌, ◌⊎◌, inl, inr, sym, ◌∙◌,
}
use Prim.Native.Nat.{max}
use topographer.Base.Time.{Duration}
use topographer.Errors.{Err}
use topographer.Breaker.{
  Breaker, State, closed, opened, Reply, is_error_ok, do_call, new_circuit_breaker,
}

-- Calls one after the other, each with the context's error when it ends and the callback's reply.
unfoldable pub calls {ℓ} : {R : Type ℓ} → Breaker → List (Option Err × Reply R) → Breaker
unfolding do_call
calls c [] = c
calls c ((ctx, r) ∷ rs) = calls (do_call ctx r c).0 rs

pub data Outcome : Type 0 where
  success failure abandoned : Outcome

abbrev pub outcome {ℓ} : {R : Type ℓ} → Option Err × Reply R → Outcome
outcome (some e, r) = abandoned
outcome (none, r) = if is_error_ok r.err then success else failure

-- The longest row of failures with no success in it, given that it begins with `m` failures.
abbrev pub longest : ℕ → List Outcome → ℕ
longest m [] = m
longest m (success ∷ os) = max m (longest 0 os)
longest m (failure ∷ os) = longest (suc m) os
longest m (abandoned ∷ os) = longest m os

le-longest : (m : ℕ) (os : List Outcome) → m ≤ longest m os
le-longest m [] = omega arith
le-longest m (success ∷ os) = omega arith
le-longest m (failure ∷ os) = omega (arith, le-longest (suc m) os)
le-longest m (abandoned ∷ os) = le-longest m os

do_call_opened {ℓ} :
    {R : Type ℓ} (c : Breaker) (x : Option Err × Reply R)
    → c.state ≡ opened
    → (do_call x.0 x.1 c).0 ≡ c
unfolding do_call
do_call_opened c x h = ground arith

calls_opened {ℓ} :
    {R : Type ℓ} (c : Breaker) (rs : List (Option Err × Reply R))
    → c.state ≡ opened
    → calls c rs ≡ c
unfolding calls
calls_opened c [] h = refl
calls_opened c (x ∷ rs) h = rw (do_call_opened c x h) (calls_opened c rs h)

-- One call on a closed breaker, by its outcome.
abbrev Counted : Outcome → Breaker → Breaker → Type 0
Counted success c d = (d.state ≡ closed) × (d.failures_count ≡ 0)
Counted abandoned c d = (d.state ≡ closed) × (d.failures_count ≡ c.failures_count)
Counted failure c d =
    ((c.failures_count < c.open_threshold)
      × (d.state ≡ closed)
      × (d.failures_count ≡ suc c.failures_count))
    ⊎ ((c.open_threshold ≤ c.failures_count) × (d.state ≡ opened))

do_call-Counted {ℓ} :
    {R : Type ℓ} (c : Breaker) (x : Option Err × Reply R)
    → c.state ≡ closed
    → c.failures_count ≤ c.open_threshold
    → c.open_threshold + 1 < 2 ^ 32
    → Counted (outcome x) c (do_call x.0 x.1 c).0
      × ((do_call x.0 x.1 c).0.open_threshold ≡ c.open_threshold)
unfolding do_call
do_call-Counted c (some e, r) h k b = ground arith
do_call-Counted c (none, r) h k b = ground arith

-- What the count says of the state.
abbrev Tells : ℕ → ℕ → State → Type 0
Tells threshold row state =
    ((threshold < row) × (state ≡ opened)) ⊎ ((row ≤ threshold) × (state ≡ closed))

Tells-cons :
    (o : Outcome) (os : List Outcome) (c d : Breaker) (st : State)
    → c.failures_count ≤ c.open_threshold
    → Counted o c d
    → d.open_threshold ≡ c.open_threshold
    → (d.state ≡ closed
        → d.failures_count ≤ d.open_threshold
        → Tells d.open_threshold (longest d.failures_count os) st)
    → (d.state ≡ opened → st ≡ opened)
    → Tells c.open_threshold (longest c.failures_count (o ∷ os)) st
Tells-cons success os c d st k q t later stuck =
    let ih = later q.0 (omega arith) in let ih' = rw q.1 at ih in ground arith
Tells-cons abandoned os c d st k q t later stuck =
    let ih = later q.0 (omega arith) in let ih' = rw q.1 at ih in ground arith
Tells-cons failure os c d st k (inl (below, s, n)) t later stuck =
    let ih = later s (omega arith) in let ih' = rw n at ih in ground arith
Tells-cons failure os c d st k (inr (full, s)) t later stuck =
    inl (omega (arith, le-longest (suc c.failures_count) os), stuck s)

calls-Tells {ℓ} :
    {R : Type ℓ} (c : Breaker) (rs : List (Option Err × Reply R))
    → c.state ≡ closed
    → c.failures_count ≤ c.open_threshold
    → c.open_threshold + 1 < 2 ^ 32
    → Tells c.open_threshold (longest c.failures_count (map outcome rs)) (calls c rs).state
unfolding calls
calls-Tells c [] h k b = ground arith
calls-Tells c (x ∷ rs) h k b =
    let d = (do_call x.0 x.1 c).0 in
    let (counted, same) = do_call-Counted c x h k b in
    Tells-cons (outcome x) (map outcome rs) c d _ k counted same
      (λ s below. calls-Tells d rs s below (rw same b)) (λ s. rw (calls_opened d rs s) s)

not_both : opened ≡ closed → ⊥
not_both e = cc

-- Calls made one after the other on a new breaker, no timer expiring among them, leave it opened
-- exactly when more of them in a row than the threshold says have failed (calls whose context was
-- done are passed over); otherwise it is closed. The threshold is below 2^32 - 1.
pub opened_iff {ℓ} :
    {R : Type ℓ} (threshold : ℕ) (t u : Duration) (rs : List (Option Err × Reply R))
    → threshold + 1 < 2 ^ 32
    → let state = (calls (new_circuit_breaker threshold t u) rs).state in
      ((state ≡ opened) ↔ (threshold < longest 0 (map outcome rs)))
      × ((state ≡ closed) ↔ (longest 0 (map outcome rs) ≤ threshold))
unfolding new_circuit_breaker
opened_iff threshold t u rs b =
    elim (calls-Tells (new_circuit_breaker threshold t u) rs refl (omega arith) b) [
      | inl (row, s) ↦
          ((λ _. row, λ _. s), (λ e. absurd (not_both (sym s ∙ e)), λ le. absurd (omega arith)))
      | inr (row, s) ↦
          ((λ e. absurd (not_both (sym e ∙ s)), λ lt. absurd (omega arith)), (λ _. row, λ _. s))
    ]
