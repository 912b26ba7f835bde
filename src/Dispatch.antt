-- ===== src/Dispatch.antt =====
-- h-app/core/dispatch.py: the handlers of the port types, and who handles a delivery. importlib and
-- getattr are the parameter `Imports`; a handler is code of its own.
pub mod Lease
pub mod Exclusion
pub mod Runs
pub mod Handlers
pub mod Drained
mod Tests
use h_mesh.Base.{
  Bool, true, false, not, Option, none, some, List, [], ◌∷◌, if◌then◌else◌, Text, codes, ◌=t◌,
}
use h_mesh.Errors.{value_error, type_error, Result, ok, raise, ◌>>◌, require}
use h_mesh.Keys.{agent_key, tenant_key}
use h_mesh.Envelope.Header.{Raw}
use h_mesh.Redis.{Redis}
use h_mesh.Redis.World.{Action, andthen, lift, returns, command}
use h_mesh.Registry.{lookup}

-- A callable, a pair of a module path and an attribute name, or anything else.
pub data Spec (H : Type 0) : Type 0 where
  callable : H → Spec H
  lazy : Text → Text → Spec H
  other : Spec H

-- getattr(importlib.import_module(module_path), attr_name): a callable, another object,
-- ImportError or AttributeError, or TypeError
pub data Imported (H : Type 0) : Type 0 where
  found : H → Imported H
  not_callable : Imported H
  missing : Imported H
  ill_typed : Imported H

abbrev pub Handlers : Type 0 → Type 0
Handlers H = List (Text × Spec H)

abbrev pub is_empty : Text → Bool
is_empty [] = true
is_empty (c ∷ s) = false

module _ {H : Type 0} where
  unfoldable pub spec_of : Text → Handlers H → Option (Spec H)
  spec_of name [] = none
  spec_of name ((n, spec) ∷ rest) =
      let later = spec_of name rest in if n =t name then some spec else later

  unfoldable pub put_spec : Text → Spec H → Handlers H → Handlers H
  put_spec name spec [] = (name, spec) ∷ []
  put_spec name spec ((n, old) ∷ rest) =
      let later = put_spec name spec rest in
      if n =t name then (name, spec) ∷ rest else (n, old) ∷ later

  -- _REGISTRY.pop(port_type_name, None), for a name that occurs once
  unfoldable pub unregister_type : Text → Handlers H → Handlers H
  unregister_type name [] = []
  unregister_type name ((n, spec) ∷ rest) =
      let later = unregister_type name rest in if n =t name then later else (n, spec) ∷ later

  abbrev pub reset_registry : Handlers H
  reset_registry = []

  abbrev pub checked_import : Imported H → Result (Unit {0})
  checked_import (found h) = ok tt
  checked_import not_callable = raise value_error
  checked_import missing = raise value_error
  checked_import ill_typed = raise value_error

  -- A lookup logs an import that fails, and answers None.
  abbrev pub handler_import : Imported H → Result (Option H)
  handler_import (found h) = ok (some h)
  handler_import not_callable = ok none
  handler_import missing = ok none
  handler_import ill_typed = raise type_error

module _ {H : Type 0} (imports : Text → Text → Imported H) where
  abbrev pub check_spec : Spec H → Result (Unit {0})
  check_spec (callable h) = ok tt
  check_spec (lazy path name) = checked_import (imports path name)
  check_spec other = raise value_error

  unfoldable pub register_type : Text → Spec H → Handlers H → Result (Handlers H)
  register_type name spec handlers = do
    require (not (is_empty name)) value_error
    check_spec spec
    ok (put_spec name spec handlers)

  abbrev pub handler_of : Option (Spec H) → Result (Option H)
  handler_of none = ok none
  handler_of (some (callable h)) = ok (some h)
  handler_of (some (lazy path name)) = handler_import (imports path name)
  handler_of (some other) = ok none

  unfoldable pub get_handler : Text → Handlers H → Result (Option H)
  get_handler name handlers = if is_empty name then ok none else handler_of (spec_of name handlers)

module _ (R : Redis) where
  abbrev pub drained : Text → List Raw → R.Db → List Raw × R.Db
  drained key [] d = ([], d)
  drained key (x ∷ xs) d = (x ∷ xs, R.put_items d key [])

  unfoldable pub drain_script : Text → R.Db → List Raw × R.Db
  drain_script key d = drained key (R.items d key) d

  unfoldable pub push_dead : Text → List Raw → Action R.Db (Unit {0})
  push_dead key [] = returns tt
  push_dead key (raw ∷ rest) =
      let later = push_dead key rest in
      andthen (command λ d. (tt {0}, R.rpush d key raw)) λ _. later

module _ (R : Redis) (pod tenant agent : Text) where
  unfoldable pub dead_letter_unroutable : Action R.Db (Unit {0})
  dead_letter_unroutable =
      andthen (lift (agent_key pod tenant agent (codes "ingress"))) λ ingress_key.
        andthen (lift (agent_key pod tenant agent (codes "dead"))) λ dead_key.
          andthen (command (drain_script R ingress_key)) λ items. push_dead R dead_key items

  module _ (imports : Text → Text → Imported (Action R.Db (Unit {0})))
      (handlers : List (Text × Spec (Action R.Db (Unit {0})))) where
    abbrev pub hand_off : Option (Action R.Db (Unit {0})) → Action R.Db (Unit {0})
    hand_off none = dead_letter_unroutable
    hand_off (some handler) = handler

    -- get_handler(agent_port_type) if agent_port_type else None
    abbrev pub handler_for : Option Text → Result (Option (Action R.Db (Unit {0})))
    handler_for none = ok none
    handler_for (some name) = get_handler imports name handlers

    abbrev pub resolve_and_hand_off : Action R.Db (Unit {0})
    resolve_and_hand_off = andthen (lift (tenant_key pod tenant (codes "registry"))) λ key.
        andthen (command λ d. (lookup agent (R.entries d key), d))
          λ port_type. andthen (lift (handler_for port_type)) hand_off

    abbrev pub is_set : Option Text → Bool
    is_set none = false
    is_set (some []) = false
    is_set (some (c ∷ s)) = true

    unfoldable pub dispatch_ingress : Action R.Db (Unit {0})
    dispatch_ingress = andthen (lift (agent_key pod tenant agent (codes "paused"))) λ key.
        andthen (command λ d. (R.value d key, d))
          λ paused. if is_set paused then returns tt else resolve_and_hand_off
