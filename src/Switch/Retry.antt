-- ===== src/Switch/Retry.antt =====
-- h-app/core/service.py: which Redis errors are transient, and the retries around one command.
use h_mesh.Base.{
  ℕ, suc, zero, Bool, true, false, ◌||◌, Option, none, some, [], ◌∷◌, leb, ◌&&◌, ◌-◌, ◌==◌,
  if◌then◌else◌, Text, ◌=t◌, codes,
}
use h_mesh.Errors.{
  Exc, redis, retry_exhausted, raise, RedisError, busy_loading, read_only, try_again, master_down,
  authentication, connection, timed_out, response, fatal, Category, busy, loading, readonly,
  tryagain, masterdown, dropped, timeout,
}
use h_mesh.Redis.World.{Action, catching}

-- str.upper, as far as it can give a text of the five codes: the letters a to z, and the characters
-- dotless i, long s and the two st ligatures, whose capitals are ASCII.
upper : Text → Text
upper [] = []
upper (c ∷ s) =
    let rest = upper s in
    if leb 97 c && leb c 122
    then (c - 32) ∷ rest
    else if c == 305
    then 73 ∷ rest
    else if c == 383
    then 83 ∷ rest
    else if (c == 64261) || (c == 64262)
    then 83 ∷ 84 ∷ rest
    else c ∷ rest

-- str(exc).split(" ", 1)[0]
first_word : Text → Text
first_word [] = []
first_word (c ∷ s) = let rest = first_word s in if c == 32 then [] else c ∷ rest

unfoldable pub response_category : Text → Option Category
unfolding upper first_word
response_category text =
    let code = upper (first_word text) in
    if code =t codes "BUSY"
    then some busy
    else if code =t codes "LOADING"
    then some loading
    else if code =t codes "READONLY"
    then some readonly
    else if code =t codes "TRYAGAIN"
    then some tryagain
    else if code =t codes "MASTERDOWN"
    then some masterdown
    else none

abbrev pub error_category : RedisError → Option Category
error_category busy_loading = some loading
error_category read_only = some readonly
error_category try_again = some tryagain
error_category master_down = some masterdown
error_category authentication = none
error_category connection = some dropped
error_category timed_out = some timeout
error_category (response text) = response_category text
error_category fatal = none

unfoldable pub transient_redis_category : Exc → Option Category
transient_redis_category (redis e) = error_category e
transient_redis_category e = none

unfoldable pub rejected_before_execution : Category → Bool
rejected_before_execution dropped = false
rejected_before_execution timeout = false
rejected_before_execution c = true

module _ {Db : Type 0} where
  -- except Exception as exc: what the loop does at an exception, before `again` (the next attempt, or
  -- the exhaustion at the last).
  abbrev pub on_error :
      {A : Type 0} → Bool → Option Category → (Category → Action Db A) → Exc → Action Db A
  on_error idempotent none again e w = (raise e, w)
  on_error idempotent (some c) again e w =
      let next = again c w in
      if rejected_before_execution c || idempotent then next else (raise e, w)

  -- Attempt `attempt`, with `left` more after it.
  unfoldable pub retrying_from : {A : Type 0} → ℕ → ℕ → Bool → Action Db A → Action Db A
  retrying_from attempt zero idempotent op = catching op λ e.
      on_error idempotent (transient_redis_category e)
        (λ c w. (raise (retry_exhausted c e attempt), w)) e
  retrying_from attempt (suc left) idempotent op = catching op λ e.
      on_error idempotent (transient_redis_category e)
        (λ c. retrying_from (suc attempt) left idempotent op) e

  -- for attempt in range(1, attempts + 1), where attempts is at least 1
  unfoldable pub retrying : {A : Type 0} → ℕ → Bool → Action Db A → Action Db A
  unfolding retrying_from
  retrying attempts idempotent op = retrying_from 1 (attempts - 1) idempotent op
