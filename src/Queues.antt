-- ===== src/Queues.antt =====
-- h-app/core/queues.py: the admission script and its caller.
pub mod Bounds
use h_mesh.Base.{
  ℕ, suc, zero, ◌-◌, ◌≡◌, Bool, true, false, Option, none, some, List, [], ◌∷◌, length, leb,
  if◌then◌else◌, Text, codes,
}
use h_mesh.Errors.{
  Exc, Result, ok, raise, value_error, runtime_error, ◌>>=◌, ◌>>◌, require, or_raise,
}
use h_mesh.Keys.{agent_key}
use h_mesh.Envelope.Header.{Raw}
use h_mesh.Redis.{Redis}
use h_mesh.Redis.World.{World, Action, andthen, lift, command}

-- The reply of the script: {1, …} or {0, index, depth}, the index counted from 1.
pub data Reply : Type 0 where
  appended : Reply
  full : ℕ → ℕ → Reply

-- What admit_ingress returns: (True, None, None) or (False, name, depth).
pub data Admission : Type 0 where
  admitted : Admission
  rejected : Text → ℕ → Admission

abbrev pub get_elem? : List Text → ℕ → Option Text
get_elem? [] i = none
get_elem? (x ∷ xs) zero = some x
get_elem? (x ∷ xs) (suc i) = get_elem? xs i

abbrev pub is_nonempty : List Text → Bool
is_nonempty [] = false
is_nonempty (x ∷ xs) = true

unfoldable pub ingress_keys : Text → Text → List Text → Result (List Text)
ingress_keys pod tenant [] = ok []
ingress_keys pod tenant (name ∷ names) = do
  k ← agent_key pod tenant name (codes "ingress")
  ks ← ingress_keys pod tenant names
  ok (k ∷ ks)

unfoldable pub admission : List Text → Reply → Result Admission
admission names appended = ok admitted
admission names (full index depth) = do
  name ← or_raise (get_elem? names (index - 1)) runtime_error
  ok (rejected name depth)

module _ (R : Redis) where
  -- The first loop of the script: the first key whose list has reached the limit.
  unfoldable pub first_full : ℕ → ℕ → R.Db → List Text → Option (ℕ × ℕ)
  first_full limit index d [] = none
  first_full limit index d (k ∷ ks) =
      let depth = length (R.items d k) in
      let rest = first_full limit (suc index) d ks in
      if leb limit depth then some (index, depth) else rest

  -- The second loop.
  unfoldable pub push_each : R.Db → List Text → Raw → R.Db
  push_each d [] raw = d
  push_each d (k ∷ ks) raw = push_each (R.rpush d k raw) ks raw

  abbrev pub script_after : Option (ℕ × ℕ) → R.Db → List Text → Raw → Reply × R.Db
  script_after (some (index, depth)) d keys raw = (full index depth, d)
  script_after none d keys raw = (appended, push_each d keys raw)

  unfoldable pub admit_script : List Text → ℕ → Raw → R.Db → Reply × R.Db
  admit_script keys limit raw d = script_after (first_full limit 1 d keys) d keys raw

  unfoldable pub admit_ingress : Text → Text → List Text → Raw → ℕ → Action R.Db Admission
  admit_ingress pod tenant destinations raw limit =
      andthen (lift (require (is_nonempty destinations) value_error)) λ _.
        andthen (lift (require (leb 1 limit) value_error)) λ _.
          andthen (lift (ingress_keys pod tenant destinations)) λ keys.
            andthen (command (admit_script keys limit raw))
              λ reply. lift (admission destinations reply)
