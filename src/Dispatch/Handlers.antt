-- ===== src/Dispatch/Handlers.antt =====
-- What is registered is found.
use h_mesh.Base.{
  ℕ, subst, ◌≡◌, ◌≢◌, refl, some, [], ◌∷◌, Text, ◌=t◌, =t-self, =t_eq, ne_=t, Bool-cases, inl, inr,
}
use h_mesh.Errors.{ok_eq, ok, >>=_elim}
use h_mesh.Dispatch.{
  Spec, callable, lazy, other, Imported, found, not_callable, missing, ill_typed, Handlers,
  checked_import, handler_import, spec_of, put_spec, check_spec, register_type, handler_of,
  get_handler,
}

module _ {H : Type 0} where
  spec_of-put_spec :
      (name : Text) (spec : Spec H) (handlers : Handlers H)
      → spec_of name (put_spec name spec handlers) ≡ some spec
  unfolding spec_of put_spec
  spec_of-put_spec name spec [] = rw (=t-self name) refl
  spec_of-put_spec name spec ((n, old) ∷ rest) = elim (Bool-cases (n =t name)) [
    | inl e ↦ rw (e, =t-self name) refl
    | inr e ↦ rw (e, e) (spec_of-put_spec name spec rest)
  ]

  spec_of-put_spec_other :
      (name another : Text) (spec : Spec H) (handlers : Handlers H)
      → name ≢ another
      → spec_of another (put_spec name spec handlers) ≡ spec_of another handlers
  unfolding spec_of put_spec
  spec_of-put_spec_other name another spec [] ne = rw (ne_=t name another ne) refl
  spec_of-put_spec_other name another spec ((n, old) ∷ rest) ne = elim (Bool-cases (n =t name)) [
    | inl e ↦ rw (e, ne_=t name another ne, =t_eq n name e, ne_=t name another ne) refl
    | inr e ↦ rw (e, spec_of-put_spec_other name another spec rest ne) refl
  ]

module _ {H : Type 0} where
  handler_import-checked :
      (i : Imported H)
      → checked_import i ≡ ok tt
      → (h : H) × (i ≡ found h) × (handler_import i ≡ ok (some h))
  handler_import-checked (found h) c = (h, refl, refl)
  handler_import-checked not_callable c = absurd (cc c)
  handler_import-checked missing c = absurd (cc c)
  handler_import-checked ill_typed c = absurd (cc c)

-- What a specification names: a callable itself, and a path and a name what they import.
pub data IsHandler {H : Type 0} (imports : Text → Text → Imported H) : Spec H → H → Type 0 where
  itself : (h : H) → IsHandler imports (callable h) h
  imported :
      (path name : Text) (h : H)
      → imports path name ≡ found h
      → IsHandler imports (lazy path name) h

module _ {H : Type 0} (imports : Text → Text → Imported H) where
  handler_of-checked :
      (spec : Spec H)
      → check_spec imports spec ≡ ok tt
      → (h : H) × IsHandler imports spec h × (handler_of imports (some spec) ≡ ok (some h))
  handler_of-checked (callable h) c = (h, itself h, refl)
  handler_of-checked (lazy path name) c =
      let (h, is, answer) = handler_import-checked (imports path name) c in
      (h, imported path name h is, answer)
  handler_of-checked other c = absurd (cc c)

  put_found :
      (x : ℕ) (s : Text) (spec : Spec H) (handlers : Handlers H)
      → check_spec imports spec ≡ ok tt
      → (h : H) × IsHandler imports spec h
        × (get_handler imports (x ∷ s) (put_spec (x ∷ s) spec handlers) ≡ ok (some h))
  unfolding get_handler
  put_found x s spec handlers checked =
      rw (spec_of-put_spec (x ∷ s) spec handlers) (handler_of-checked spec checked)

  put_other :
      (name : Text) (spec : Spec H) (handlers : Handlers H) (another : Text)
      → name ≢ another
      → get_handler imports another (put_spec name spec handlers)
        ≡ get_handler imports another handlers
  unfolding get_handler
  put_other name spec handlers another ne =
      rw (spec_of-put_spec_other name another spec handlers ne) refl

  -- A registration that is accepted, where a lookup imports as it did: from then on the name has the
  -- handler that the registered specification names, and every other name the one it had.
  pub register_type-get_handler :
      (name : Text) (spec : Spec H) (handlers handlers' : Handlers H)
      → register_type imports name spec handlers ≡ ok handlers'
      → ((h : H) × IsHandler imports spec h × (get_handler imports name handlers' ≡ ok (some h)))
        × ((another : Text)
            → name ≢ another
            → get_handler imports another handlers' ≡ get_handler imports another handlers)
  unfolding register_type
  register_type-get_handler [] spec handlers handlers' r = absurd (cc r)
  register_type-get_handler (x ∷ s) spec handlers handlers' r =
      >>=_elim (check_spec imports spec) r λ u checked put.
        subst
          (λ hs.
            ((h : H) × IsHandler imports spec h × (get_handler imports (x ∷ s) hs ≡ ok (some h)))
            × ((another : Text)
                → (x ∷ s) ≢ another
                → get_handler imports another hs ≡ get_handler imports another handlers))
          (ok_eq put) (put_found x s spec handlers checked, put_other (x ∷ s) spec handlers)
