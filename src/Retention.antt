-- ===== src/Retention.antt =====
-- h-app/core/retention.py: the bounds on the finished tasks and the dead frames of each agent.
pub mod Bounds
mod Tests
use h_mesh.Base.{
  ℕ, suc, ◌-◌, ◌<◌, Bool, true, false, ◌&&◌, List, [], ◌∷◌, length, drop, if◌then◌else◌, Text,
  codes, ltb,
}
use h_mesh.Errors.{value_error, Result, ok, raise, ◌>>=◌, require}
use h_mesh.Keys.{agent_key}
use h_mesh.Envelope.Header.{Raw}
use h_mesh.Redis.{Redis}
use h_mesh.Redis.World.{Action, andthen, lift, returns, command}
use h_mesh.Receipts.{sorted_set}

pub record Caps : Type 0 where
  pub board_done_max : ℕ
  pub dead_max : ℕ

-- RetentionTrimmer(…), which refuses a cap below 1
unfoldable pub trimmer : ℕ → ℕ → Result Caps
trimmer board_done_max dead_max =
    if ltb 0 board_done_max && ltb 0 dead_max
    then ok (record { board_done_max = board_done_max; dead_max = dead_max })
    else raise value_error

-- LTRIM key -bound -1, for a bound above 0
abbrev pub newest : ℕ → List Raw → List Raw
newest bound xs = drop (length xs - bound) xs

module _ (pod tenant : Text) (caps : Caps) where
  -- The commands of the pipeline: a key, and how many entries stay.
  unfoldable pub trims : List Text → Result (List (Text × ℕ))
  trims [] = ok []
  trims (agent ∷ agents) = do
    done ← agent_key pod tenant agent (codes "tasks.done")
    dead ← agent_key pod tenant agent (codes "dead")
    rest ← trims agents
    ok ((done, caps.board_done_max) ∷ (dead, caps.dead_max) ∷ rest)

module _ (R : Redis) where
  unfoldable pub trim_each : List (Text × ℕ) → R.Db → R.Db
  trim_each [] d = d
  trim_each ((key, bound) ∷ rest) d =
      trim_each rest (R.put_items d key (newest bound (R.items d key)))

  -- A pipeline is sent as one transaction.
  unfoldable pub retain : Text → Text → Caps → List Text → Action R.Db (Unit {0})
  retain pod tenant caps agents =
      andthen (lift (trims pod tenant caps (sorted_set agents)))
        λ commands. command λ d. (tt {0}, trim_each commands d)
