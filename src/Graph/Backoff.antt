-- ===== src/Graph/Backoff.antt =====
-- How often a request is sent, how long it waits, and what it sends (internal/graph/client.go:
-- RetryDoer.Do).
use onecloudriver.Prelude.{
  ℕ, zero, suc, ◌+◌, ◌*◌, ◌^◌, ◌≤◌, ◌≡◌, refl, sym, ap, ◌∙◌, Bool, false, Option, none, some, List,
  [], ◌∷◌, length, arith, All,
}
use onecloudriver.Graph.Retries.{
  Answer, failed, response, Request, Body, whole, Outcome, Run, base_delay, Next, ends, again,
  after_answer, attempts, do_request, ended, retried,
}

-- The header of an answer.
abbrev pub retry_after : Answer → Option ℕ
retry_after (failed n) = none
retry_after (response status after) = after

abbrev pub sum : List ℕ → ℕ
sum [] = 0
sum (d ∷ ds) = d + sum ds

zero_plus : (n : ℕ) → 0 + n ≡ n
zero_plus n = omega arith

nothing : (n : ℕ) → n ≡ n + 0
nothing n = omega arith

no_delay : (n : ℕ) → 0 + base_delay * 2 ^ n ≡ base_delay * 2 ^ (n + 0)
no_delay n = zero_plus (base_delay * 2 ^ n) ∙ ap (λ k. base_delay * 2 ^ k) (nothing n)

shift : (n k : ℕ) → suc n + k ≡ n + suc k
shift n k = omega arith

from_zero :
    (total k : ℕ)
    → total + base_delay * 2 ^ 0 ≡ base_delay * 2 ^ (0 + k)
    → total + base_delay ≡ base_delay * 2 ^ k
from_zero total k e = e ∙ ap (λ n. base_delay * 2 ^ n) (zero_plus k)

sum_step :
    (d total p p' q : ℕ)
    → d ≡ base_delay * p
    → p' ≡ 2 * p
    → total + base_delay * p' ≡ base_delay * q
    → d + total + base_delay * p ≡ base_delay * q
sum_step d total p p' q e f g = omega (arith, e, f, g)

pow-suc : (n : ℕ) → 2 ^ suc n ≡ 2 * 2 ^ n
pow-suc n = omega arith

module _ {W : Type 0} (send : Body → W → Answer × W) (r : Request) where
  by_next :
      (P : Run W → Type 0) (n attempt : ℕ) (body : Body) (w : W) (x : Next)
      → ((o : Outcome) → x ≡ ends o → P (ended send r o body w))
      → ((d : ℕ) (next : Body)
          → x ≡ again d next
          → P (retried send r d body (attempts send r n (suc attempt) next w)))
      → P (elim x [
        | ends o ↦ ended send r o body w
        | again d next ↦ retried send r d body (attempts send r n (suc attempt) next w)
      ])
  by_next P n attempt body w (ends o) s t = s o refl
  by_next P n attempt body w (again d next) s t = t d next refl

  -- One body more than delays, and no more delays than retries.
  pub record IsLimited (n : ℕ) (run : Run W) : Type 0 where
    pub sent : length run.bodies ≡ suc (length run.delays)
    pub limited : length run.delays ≤ n

  attempts-IsLimited :
      (n attempt : ℕ) (body : Body) (w : W) → IsLimited n (attempts send r n attempt body w)
  unfolding attempts
  attempts-IsLimited zero attempt body w = record { sent = refl; limited = omega arith }
  attempts-IsLimited (suc n) attempt body w =
      by_next (IsLimited (suc n)) n attempt body (send body w).1
        (after_answer r attempt body (send body w).0)
        (λ o e. record { sent = refl; limited = omega arith })
        λ d next e.
          let h = attempts-IsLimited n (suc attempt) next (send body w).1 in
          let s = h.sent in let l = h.limited in record { sent = ap suc s; limited = omega arith }

  -- A delay without a Retry-After header doubles with each attempt.
  delay_lem :
      (attempt : ℕ) (body : Body) (a : Answer) (d : ℕ) (next : Body)
      → retry_after a ≡ none
      → after_answer r attempt body a ≡ again d next
      → d ≡ base_delay * 2 ^ attempt
  unfolding after_answer
  delay_lem attempt body (failed network) d next h e = ground (arith, e)
  delay_lem attempt body (response status (some s)) d next h e = cc
  delay_lem attempt body (response status none) d next h e = ground (arith, e)

  attempts-sum :
      ((b : Body) (w : W) → retry_after (send b w).0 ≡ none)
      → (n attempt : ℕ) (body : Body) (w : W)
      → let run = attempts send r n attempt body w in
        sum run.delays + base_delay * 2 ^ attempt ≡ base_delay * 2 ^ (attempt + length run.delays)
  unfolding attempts
  attempts-sum h zero attempt body w = no_delay attempt
  attempts-sum h (suc n) attempt body w =
      by_next
        (λ run.
          sum run.delays + base_delay * 2 ^ attempt
          ≡ base_delay * 2 ^ (attempt + length run.delays))
        n attempt body (send body w).1 (after_answer r attempt body (send body w).0)
        (λ o e. no_delay attempt)
        λ d next e.
          let run = attempts send r n (suc attempt) next (send body w).1 in
          let i = attempts-sum h n (suc attempt) next (send body w).1 in
          let m = delay_lem attempt body (send body w).0 d next (h body w) e in
          sum_step d (sum run.delays) (2 ^ attempt) (2 ^ suc attempt)
            (2 ^ (suc attempt + length run.delays)) m (pow-suc attempt) i
          ∙ ap (λ k. base_delay * 2 ^ k) (shift attempt (length run.delays))

  -- Where the server sends no Retry-After header, a request that may be retried `max_retries` times is
  -- sent once more than it waits and waits at most that often, and with k waits it waited 2 ^ k - 1
  -- times the base delay.
  pub do_request-delays :
      ((b : Body) (w : W) → retry_after (send b w).0 ≡ none)
      → (max_retries : ℕ) (w : W)
      → let run = do_request send r max_retries w in
        (length run.bodies ≡ suc (length run.delays))
        × (length run.delays ≤ max_retries)
        × (sum run.delays + base_delay ≡ base_delay * 2 ^ length run.delays)
  unfolding do_request
  do_request-delays h n w =
      let l = attempts-IsLimited n 0 whole w in
      let k = attempts-sum h n 0 whole w in
      (
        l.sent,
        l.limited,
        from_zero (sum (attempts send r n 0 whole w).delays)
            (length (attempts send r n 0 whole w).delays) k,
      )

  -- Is an answer an error of the network?
  abbrev pub is_network_failure : Answer → Bool
  is_network_failure (failed n) = n
  is_network_failure (response status after) = false

  next_whole :
      (attempt : ℕ) (a : Answer) (d : ℕ) (next : Body)
      → is_network_failure a ≡ false
      → after_answer r attempt whole a ≡ again d next
      → next ≡ whole
  unfolding after_answer
  next_whole attempt (failed n) d next h e = ground (arith, h, e)
  next_whole attempt (response status after) d next h e = ground (arith, e)

  attempts-whole :
      ((b : Body) (w : W) → is_network_failure (send b w).0 ≡ false)
      → (n attempt : ℕ) (body : Body) (w : W) → body ≡ whole
      → All (λ b. b ≡ whole) (attempts send r n attempt body w).bodies
  unfolding attempts
  attempts-whole h zero attempt body w e = (e, tt)
  attempts-whole h (suc n) attempt body w e =
      by_next (λ run. All (λ b. b ≡ whole) run.bodies) n attempt body (send body w).1
        (after_answer r attempt body (send body w).0) (λ o x. (e, tt))
        λ d next x. (
          e,
          attempts-whole h n (suc attempt) next (send body w).1 (
              next_whole attempt (send body w).0 d next (h body w)
                (ap (λ b. after_answer r attempt b (send body w).0) (sym e) ∙ x)),
        )

  -- Where no error of the network occurs, every attempt sends the whole body: a body that cannot be
  -- given again is sent once, and any other is given again before each retry.
  pub do_request-whole :
      ((b : Body) (w : W) → is_network_failure (send b w).0 ≡ false)
      → (max_retries : ℕ) (w : W) → All (λ b. b ≡ whole) (do_request send r max_retries w).bodies
  unfolding do_request
  do_request-whole h n w = attempts-whole h n 0 whole w refl
