-- ===== src/Lifecycle/Stops.antt =====
-- A stop that meets no fault.
use h_mesh.Base.{
  ◌≡◌, refl, sym, ap, subst, Bool, true, false, List, [], ◌∷◌, if◌then◌else◌, Text, codes,
  elem_text, length,
}
use h_mesh.Errors.{ok}
use h_mesh.Keys.{tenant_key}
use h_mesh.Envelope.Values.{Value, Fields}
use h_mesh.Redis.{Redis}
use h_mesh.Redis.World.{World, Action, returns, command_calm}
use h_mesh.Registry.{lookup}
use h_mesh.Channels.{is_type}
use h_mesh.Lifecycle.Requests.{target, target_only_keys}
use h_mesh.Lifecycle.Retire.{
  RetireKeys, retired, retire_keys, has_types, remove_script, surrendered,
}
use h_mesh.Lifecycle.Surrender.{retire_keys_lem}
use h_mesh.Lifecycle.Retired.{IsRetired, remove_script-IsRetired}
use h_mesh.Lifecycle.Start.{write_desired, actual}
use h_mesh.Lifecycle.Agents.{stop_agent}

module _ (R : Redis) (pod tenant : Text) (encode : Value → Text)
    (kill_window : Text → Action R.Db (Unit {0})) where
  removed :
      (agent : Text) (k : RetireKeys) (d : R.Db)
      → has_types R encode agent k d ≡ true
      → remove_script R encode agent k d ≡ (
        retired
            (length (R.items d k.processing))
            (length (R.items d k.ingress))
            (length (R.items d k.opening))
            (length (R.stream d k.inbox)),
        surrendered R encode agent k d,
      )
  unfolding remove_script
  removed agent k d typed = rw typed refl

  killed :
      (spared : Bool) (done : List Text) (agent : Text) (u : World R.Db)
      → ((x : World R.Db) → kill_window agent x ≡ (ok tt, x))
      → (if spared then returns tt else actual done (kill_window agent)) u ≡ (ok tt, u)
  killed true done agent u kills = refl
  killed false done agent u kills = rw (kills u) refl

  stop_agent_calm :
      (envelope : Value) (agent : Text) (payload : Fields) (k : RetireKeys) (w : World R.Db)
      → ((a : Text) (u : World R.Db) → kill_window a u ≡ (ok tt, u))
      → target target_only_keys envelope ≡ ok (agent, payload)
      → elem_text agent (codes "api" ∷ codes "host" ∷ []) ≡ false
      → retire_keys pod tenant agent ≡ ok k
      → has_types R encode agent k w.db ≡ true
      → w.faults ≡ []
      → stop_agent R pod tenant encode kill_window envelope w
        ≡ (ok tt, record w { db = surrendered R encode agent k w.db; faults = [] })
  unfolding stop_agent write_desired
  stop_agent_calm envelope agent payload k w kills named free keys typed calm =
      let registry : tenant_key pod tenant (codes "registry") ≡ ok k.registry =
        (retire_keys_lem pod tenant agent k keys).0 in
      rw
        (
          named,
          free,
          registry,
          command_calm (λ d. (lookup agent (R.entries d k.registry), d)) w calm,
          keys,
          command_calm (remove_script R encode agent k) (record w { faults = [] }) refl,
          removed agent k w.db typed,
        )
        (killed (is_type (codes "api") (lookup agent (R.entries w.db k.registry)))
          (codes "registry row removed and owned lead cleared" ∷ []) agent _ (kills agent))

  -- Without faults, where the keys have the types that the script asks for and killing a window works: a
  -- stop of an agent that is neither api nor host returns, and what is left is what the retirement of the
  -- agent leaves.
  pub stop_agent-IsRetired :
      (envelope : Value) (agent : Text) (payload : Fields) (k : RetireKeys) (w : World R.Db)
      → ((a : Text) (u : World R.Db) → kill_window a u ≡ (ok tt, u))
      → target target_only_keys envelope ≡ ok (agent, payload)
      → elem_text agent (codes "api" ∷ codes "host" ∷ []) ≡ false
      → retire_keys pod tenant agent ≡ ok k
      → has_types R encode agent k w.db ≡ true
      → w.faults ≡ []
      → ((stop_agent R pod tenant encode kill_window envelope w).0 ≡ ok tt)
        × IsRetired R encode pod tenant agent k w.db
            (stop_agent R pod tenant encode kill_window envelope w).1.db
  stop_agent-IsRetired envelope agent payload k w kills named free keys typed calm =
      let ran = stop_agent_calm envelope agent payload k w kills named free keys typed calm in
      let left = surrendered R encode agent k w.db in
      (
        ap (λ p. p.0) ran,
        subst (IsRetired R encode pod tenant agent k w.db) (sym (ap (λ p. p.1.db) ran)) (
            remove_script-IsRetired R encode pod tenant agent k w.db left keys
              (removed agent k w.db typed)),
      )
