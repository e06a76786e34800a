-- ===== src/Graph/Retries.antt =====
-- The retries of a request: `RetryDoer` of internal/graph/client.go over an HTTP client that is a
-- parameter. Times are nanoseconds; a shift of the base delay past the range of an int64, which takes
-- more than 30 retries, is not modelled.
use onecloudriver.Prelude.{
  ℕ, zero, suc, ◌*◌, ◌^◌, Bool, false, ◌&&◌, ◌||◌, not, Option, none, some, List, [], ◌∷◌, eqb,
  if◌then◌else◌,
}

-- What the inner client gives: an error, by whether isNetworkError holds of it, or a response with
-- its status and the seconds of its Retry-After header, if they can be read.
pub data Answer : Type 0 where
  failed : Bool → Answer
  response : ℕ → Option ℕ → Answer

-- A request by its body: is there one, does GetBody give it again, and does that succeed?
pub record Request : Type 0 where
  pub has_body : Bool
  pub resettable : Bool
  pub resets : Bool

-- The body of one attempt: whole, or read already by an earlier attempt.
pub data Body : Type 0 where
  whole spent : Body

-- What Do returns, the delays that it slept, and the bodies that it sent.
pub data Outcome : Type 0 where
  answered : ℕ → Outcome
  refused : Bool → Outcome
  reset_failed : Outcome

pub record Run (W : Type 0) : Type 0 where
  pub outcome : Outcome
  pub world : W
  pub delays : List ℕ
  pub bodies : List Body

abbrev pub base_delay : ℕ
base_delay = 1_000_000_000

-- 429 and 503
abbrev pub is_retryable : ℕ → Bool
is_retryable status = eqb status 429 || eqb status 503

abbrev pub outcome_of : Answer → Outcome
outcome_of (failed n) = refused n
outcome_of (response status after) = answered status

abbrev pub delay_of : ℕ → Option ℕ → ℕ
delay_of attempt none = base_delay * 2 ^ attempt
delay_of attempt (some seconds) = seconds * base_delay

-- A body is read by the attempt that sends it.
abbrev pub after_sending : Request → Body → Body
after_sending r body = if r.has_body then spent else body

abbrev pub after_reset : Request → Body → Body
after_reset r body = if r.resettable then whole else after_sending r body

-- What follows an answer while retries are left: the end, or the delay and the body of the next attempt.
pub data Next : Type 0 where
  ends : Outcome → Next
  again : ℕ → Body → Next

unfoldable pub after_answer : Request → ℕ → Body → Answer → Next
after_answer r attempt body (failed network) =
    if network
    then again (base_delay * 2 ^ attempt) (after_sending r body)
    else ends (refused false)
after_answer r attempt body (response status after) =
    if not (is_retryable status)
    then ends (answered status)
    else if r.has_body && not r.resettable
    then ends (answered status)
    else if r.resettable && not r.resets
    then ends reset_failed
    else again (delay_of attempt after) (after_reset r body)

module _ {W : Type 0} (send : Body → W → Answer × W) (r : Request) where
  abbrev pub ended : Outcome → Body → W → Run W
  ended o body w = record { outcome = o; world = w; delays = []; bodies = body ∷ [] }

  abbrev pub retried : ℕ → Body → Run W → Run W
  retried d body run = record run { delays = d ∷ run.delays; bodies = body ∷ run.bodies }

  -- The loop, by the number of retries left.
  unfoldable pub attempts : ℕ → ℕ → Body → W → Run W
  unfolding after_answer
  attempts zero attempt body w = let (a, w') = send body w in ended (outcome_of a) body w'
  attempts (suc n) attempt body w =
      let (a, w') = send body w in
      elim (after_answer r attempt body a) [
        | ends o ↦ ended o body w'
        | again d next ↦ retried d body (attempts n (suc attempt) next w')
      ]

  -- Do, with the limit on retries.
  unfoldable pub do_request : ℕ → W → Run W
  unfolding attempts
  do_request max_retries w = attempts max_retries 0 whole w
