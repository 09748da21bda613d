-- ===== src/Adapters/Http.antt =====
-- adapters/http.py: the request loop of HTTPClient over the network's answers, the function
-- `answers` of the attempt's number, with the delays that it sleeps. Adapters/Http/Client opens
-- and closes the httpx client.
pub mod Attempts
pub mod Client
use lidenal85_blip.Base.{
  leb, eqb, if◌then◌else◌, ℕ, zero, suc, ◌+◌, String, Bool, true, Option, none, some, List, [], ◌∷◌,
}
use lidenal85_blip.Contracts.Value.{Integer, natural}

pub record Response : Type 0 where
  pub status_code : ℕ
  pub retry_after : Option String
  pub text : String

-- What `self._client.request` does: return, or raise a TimeoutException or another exception.
pub data Answer : Type 0 where
  response : Response → Answer
  timeout other_exception : Answer

-- An AdapterError of the type NETWORK; `status` is that of an HTTP error's message.
pub record AdapterError : Type 0 where
  pub status : Option ℕ
  pub retryable : Bool

pub data Ending : Type 0 where
  returned : Response → Ending
  raised : AdapterError → Ending

pub record Request : Type 0 where
  pub ending : Ending
  pub attempts_made : ℕ
  pub slept : List Integer

-- What one turn of the `while` does: end, or sleep and go on.
pub data Turn : Type 0 where
  finish : Ending → Turn
  sleep : Integer → Turn

or_five : Option Integer → Integer
or_five none = Integer.natural 5
or_five (some n) = n

-- the `int(…)` of the header Retry-After, "5" if there is none; `parse_int` is none where `int`
-- raises
unfoldable pub rate_delay : (String → Option Integer) → Option String → Integer
unfolding or_five
rate_delay parse_int none = or_five (parse_int "5")
rate_delay parse_int (some header) = or_five (parse_int header)

unfoldable pub turn : (String → Option Integer) → ℕ → Answer → Turn
turn parse_int retry_delay timeout = sleep (Integer.natural retry_delay)
turn parse_int retry_delay other_exception = sleep (Integer.natural retry_delay)
turn parse_int retry_delay (response r) =
    if eqb r.status_code 429
    then sleep (rate_delay parse_int r.retry_after)
    else if leb 500 r.status_code
    then sleep (Integer.natural retry_delay)
    else if leb 400 r.status_code
    then finish (raised (record { status = some r.status_code; retryable = leb 500 r.status_code }))
    else finish (returned r)

unfoldable pub advance : Turn → Request → ℕ → Request
advance (finish e) rest attempt = record { ending = e; attempts_made = attempt + 1; slept = [] }
advance (sleep d) rest attempt = record rest { slept = d ∷ rest.slept }

-- the `while attempt < self.max_retries`, by the attempts that are left
unfoldable pub loop : (String → Option Integer) → ℕ → (ℕ → Answer) → ℕ → ℕ → Request
unfolding turn advance
loop parse_int retry_delay answers attempt zero = record {
  ending = raised (record { status = none; retryable = true });
  attempts_made = attempt;
  slept = [];
}
loop parse_int retry_delay answers attempt (suc more) =
    let rest = loop parse_int retry_delay answers (attempt + 1) more in
    advance (turn parse_int retry_delay (answers attempt)) rest attempt

unfoldable pub request : (String → Option Integer) → ℕ → ℕ → (ℕ → Answer) → Request
unfolding loop
request parse_int max_retries retry_delay answers = loop parse_int retry_delay answers 0 max_retries
