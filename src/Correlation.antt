-- ===== src/Correlation.antt =====
-- h-app/lib/reply_correlation.py: which deliveries an agent may answer. The expiry of a claim
-- (ex=DELIVERED_TTL_SECONDS) is one of the changes that `between`, and what happens before a check, may make.
pub mod Claims
mod Tests
use h_mesh.Base.{
  Bool, true, false, ◌||◌, Option, none, some, List, [], ◌∷◌, ◌++◌, if◌then◌else◌, Text, codes,
  ◌=t◌, ◌==◌,
}
use h_mesh.Errors.{Exc, Result, ok, raise}
use h_mesh.Keys.{agent_key}
use h_mesh.Keys.Named.{incarnation_key}
use h_mesh.Envelope.Values.{Value, str}
use h_mesh.Envelope.Checks.{is_identifier}
use h_mesh.Redis.{Redis}
use h_mesh.Redis.World.{World, Action, andthen, lift, returns, catching, command}

-- The text that the pattern ^[0-9a-f]{32}$ sees: $ also matches before a last line feed.
unfoldable pub before_line_end : Text → Text
before_line_end [] = []
before_line_end (c ∷ []) = if c == 10 then [] else c ∷ []
before_line_end (c ∷ d ∷ s) = c ∷ before_line_end (d ∷ s)

unfoldable pub is_valid_reply_id : Value → Bool
is_valid_reply_id (str s) = is_identifier (before_line_end s)
is_valid_reply_id v = false

-- The text of a valid id
abbrev pub valid_id : Bool → Value → Option Text
valid_id true (str s) = some s
valid_id valid v = none

unfoldable pub reply_id : Value → Option Text
reply_id v = valid_id (is_valid_reply_id v) v

unfoldable pub claim_key : Text → Text → Text → Text → Text → Result Text
claim_key pod tenant agent stream_id incarnation =
    agent_key pod tenant agent (codes "delivered.s" ++ (stream_id ++ (codes ".i" ++ incarnation)))

abbrev pub stored_is : Text → Option Text → Bool
stored_is source none = false
stored_is source (some s) = s =t source

-- try: … with an outcome for each end
abbrev pub trying : {Db A B : Type 0} → Action Db A → (Result A → Action Db B) → Action Db B
trying m rest w = let (r, v) = m w in rest r v

module _ (R : Redis) (pod tenant agent : Text) where
  unfoldable pub incarnation_of : Action R.Db (Option Text)
  incarnation_of =
      andthen (lift (incarnation_key pod tenant agent)) λ key. command λ d. (R.value d key, d)

  abbrev pub write_claim : Text → Text → Option Text → Action R.Db (Unit {0})
  write_claim stream_id source none = returns tt
  write_claim stream_id source (some incarnation) =
      andthen (lift (claim_key pod tenant agent stream_id incarnation))
        λ key. command λ d. (tt {0}, R.put_value d key (some source))

  abbrev pub record_id : Text → Option Text → Action R.Db (Unit {0})
  record_id source none = returns tt
  record_id source (some stream_id) =
      catching (andthen incarnation_of (write_claim stream_id source)) λ e. returns tt

  unfoldable pub record_delivered : Value → Text → Action R.Db (Unit {0})
  record_delivered stream_id source = record_id source (reply_id stream_id)

  -- The claim, if the incarnation that the caller read is still the agent's.
  abbrev pub current_claim : Text → Text → Option Text → R.Db → Option Text
  current_claim key incarnation none d = none
  current_claim key incarnation (some current) d =
      if current =t incarnation then R.value d key else none

  unfoldable pub verify_script : Text → Text → Text → R.Db → Option Text × R.Db
  verify_script key claim incarnation d = (current_claim claim incarnation (R.value d key) d, d)

  abbrev pub verdict : Text → Result (Option Text) → Action R.Db (Option Bool)
  verdict source (raise e) = returns none
  verdict source (ok stored) = returns (some (stored_is source stored))

  module _ (between : R.Db → R.Db) where
    -- What the other clients do between the two reads
    abbrev pub others_act : Action R.Db (Unit {0})
    others_act w = (ok tt, record w { db = between w.db })

    abbrev pub read_claim : Text → Text → Action R.Db (Option Text)
    read_claim stream_id incarnation = andthen others_act λ _.
        andthen (lift (incarnation_key pod tenant agent)) λ key.
          andthen (lift (claim_key pod tenant agent stream_id incarnation))
            λ claim. command (verify_script key claim incarnation)

    abbrev pub on_incarnation : Text → Text → Result (Option Text) → Action R.Db (Option Bool)
    on_incarnation stream_id source (raise e) = returns none
    on_incarnation stream_id source (ok none) = returns (some false)
    on_incarnation stream_id source (ok (some incarnation)) =
        trying (read_claim stream_id incarnation) (verdict source)

    abbrev pub check_id : Text → Option Text → Action R.Db (Option Bool)
    check_id source none = returns (some false)
    check_id source (some stream_id) = trying incarnation_of (on_incarnation stream_id source)

    -- none: could not verify
    unfoldable pub was_delivered : Value → Text → Action R.Db (Option Bool)
    was_delivered stream_id source = check_id source (reply_id stream_id)
