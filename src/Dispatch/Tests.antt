-- ===== src/Dispatch/Tests.antt =====
-- Two holders of one lease, a handler that is registered, and a list that nobody handles.
use h_mesh.Base.{
  ℕ, ◌≡◌, ◌≢◌, ◌≤◌, refl, true, none, some, [], ◌∷◌, ◌++◌, if◌then◌else◌, Text, codes, ◌=t◌,
  =t_false, elem_text, split, join,
}
use h_mesh.Errors.{ok}
use h_mesh.Keys.{
  matches_segment, matches_digits, valid_text, validate_segment, prefix_parts, prefix, agent_key,
  validate_all, validate_resource,
}
use h_mesh.Envelope.Header.{text}
use h_mesh.Redis.Memory.{memory}
use h_mesh.Redis.World.{World, command, run_under}
use h_mesh.Dispatch.{
  callable, lazy, Imported, found, missing, Handlers, register_type, get_handler, put_spec,
  dead_letter_unroutable, drain_script, push_dead,
}
use h_mesh.Dispatch.Lease.{
  Lease, Lock, acquire, release_script, live, without, Reach, here, next, passes, enters, leaves,
  running,
}
use h_mesh.Dispatch.Runs.{Reach-running, Reach-acquire}
use h_mesh.Dispatch.Handlers.{register_type-get_handler, IsHandler}
use h_mesh.Dispatch.Drained.{dead_letter_unroutable-IsMoved}

-- `ann` enters, her lease of 10 runs out, `bob` enters, and her late release leaves his lease alone.
abbrev at : ℕ → Text → Lease
at until token = record { token = token; until = until }

abbrev ann : Text
ann = codes "a"

abbrev bob : Text
bob = codes "b"

abbrev free : Lock
free = record { now = 0; lease = none; inside = [] }

abbrev last : Lock
last = record { now = 11; lease = some (at 21 bob); inside = at 21 bob ∷ [] }

run : Reach 10 free last
unfolding acquire live release_script without ◌=t◌
run =
    next {t = record { now = 11; lease = some (at 21 bob); inside = at 21 bob ∷ at 10 ann ∷ [] }}
      (next {t = record { now = 11; lease = some (at 10 ann); inside = at 10 ann ∷ [] }}
        (next {t = record { now = 0; lease = some (at 10 ann); inside = at 10 ann ∷ [] }}
          (next {t = free} here (enters ann tt refl refl)) (passes 11 refl))
        (enters bob (=t_false ann bob refl, tt) refl refl))
      (leaves ann refl)

Reach-running_example : running last.now last.inside ≤ 1
Reach-running_example = Reach-running refl refl run

Reach-acquire_example : (acquire 21 10 ann last.lease).0 ≡ true
Reach-acquire_example = Reach-acquire refl refl run ann

-- One module has the attribute `open`.
abbrev imports : Text → Text → Imported ℕ
imports path name = if name =t codes "open" then found 7 else missing

abbrev handlers : Handlers ℕ
handlers = (codes "tmux", callable 3) ∷ []

abbrev more : Handlers ℕ
more = (codes "tmux", callable 3) ∷ (codes "api", lazy (codes "port") (codes "open")) ∷ []

registered :
    register_type imports (codes "api") (lazy (codes "port") (codes "open")) handlers ≡ ok more
unfolding register_type put_spec ◌=t◌
registered = refl

register_type-get_handler_example :
    ((h : ℕ) × IsHandler imports (lazy (codes "port") (codes "open")) h
      × (get_handler imports (codes "api") more ≡ ok (some h)))
    × ((another : Text)
        → codes "api" ≢ another
        → get_handler imports another more ≡ get_handler imports another handlers)
register_type-get_handler_example =
    register_type-get_handler imports (codes "api") (lazy (codes "port") (codes "open")) handlers
      more registered

abbrev ingress_key : Text
ingress_key = codes "pod:p1:tenant:t1:agent:bob:ingress"

abbrev dead_key : Text
dead_key = codes "pod:p1:tenant:t1:agent:bob:dead"

abbrev queued : World memory.Db
queued = record {
  db = record {
    lists = λ k.
        if k =t ingress_key
        then text (codes "f") ∷ text (codes "g") ∷ []
        else text (codes "e") ∷ [];
    hashes = λ k. [];
    strings = λ k. none;
    streams = λ k. [];
    sorted = λ k. [];
  };
  faults = [];
  kicks = [];
  unknown_outcomes = [];
  opener_calls = [];
}

abbrev drained_world : World memory.Db
drained_world = (dead_letter_unroutable memory (codes "p1") (codes "t1") (codes "bob") queued).1

ingress_is : agent_key (codes "p1") (codes "t1") (codes "bob") (codes "ingress") ≡ ok ingress_key
unfolding prefix prefix_parts validate_segment valid_text matches_segment matches_digits elem_text
    ◌=t◌ join validate_resource validate_all split
ingress_is = refl

dead_is : agent_key (codes "p1") (codes "t1") (codes "bob") (codes "dead") ≡ ok dead_key
unfolding prefix prefix_parts validate_segment valid_text matches_segment matches_digits elem_text
    ◌=t◌ join validate_resource validate_all split
dead_is = refl

drained_run :
    dead_letter_unroutable memory (codes "p1") (codes "t1") (codes "bob") queued
    ≡ (ok tt, drained_world)
unfolding dead_letter_unroutable drain_script push_dead command run_under prefix prefix_parts
    validate_segment valid_text matches_segment matches_digits elem_text ◌=t◌ join validate_resource
    validate_all split
drained_run = refl

dead_letter_unroutable-IsMoved_example :
    (memory.items drained_world.db dead_key
      ≡ memory.items queued.db dead_key ++ memory.items queued.db ingress_key)
    × (memory.items drained_world.db ingress_key ≡ [])
    × ((j : Text)
        → ingress_key ≢ j
        → dead_key ≢ j
        → memory.items drained_world.db j ≡ memory.items queued.db j)
dead_letter_unroutable-IsMoved_example =
    dead_letter_unroutable-IsMoved memory (codes "p1") (codes "t1") (codes "bob") queued
      drained_world ingress_is dead_is drained_run
