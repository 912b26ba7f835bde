-- ===== src/Receipts/States.antt =====
-- The one word for a list of locations.
use h_mesh.Base.{
  ◌≡◌, ◌≢◌, ◌↔◌, refl, sym, ap, subst, Bool, true, false, List, [], ◌∷◌, all, ◌&&◌, inl, inr,
  Bool-cases, arith,
}
use h_mesh.Receipts.{
  Stage, egress, ingress, processing, opening, opened, inbox, dead, undeliverable, unresolved,
  State, queued, delivering, delivered, failed, outcome_unresolved, unknown, partial, stage_state,
  same_state, Location, add_state, states, state_of, overall_state,
}

same_state_eq : (s t : State) → same_state s t ≡ true → s ≡ t
unfolding same_state
same_state_eq queued queued h = refl
same_state_eq delivering delivering h = refl
same_state_eq delivered delivered h = refl
same_state_eq failed failed h = refl
same_state_eq outcome_unresolved outcome_unresolved h = refl
same_state_eq unknown unknown h = refl
same_state_eq partial partial h = refl
same_state_eq s t h = cc h

same_state_self : (s : State) → same_state s s ≡ true
unfolding same_state
same_state_self queued = refl
same_state_self delivering = refl
same_state_self delivered = refl
same_state_self failed = refl
same_state_self outcome_unresolved = refl
same_state_self unknown = refl
same_state_self partial = refl

pub stage_state_other :
    (s : Stage)
    → (same_state (stage_state s) partial ≡ false) × (same_state (stage_state s) unknown ≡ false)
unfolding stage_state same_state
stage_state_other egress = (refl, refl)
stage_state_other ingress = (refl, refl)
stage_state_other processing = (refl, refl)
stage_state_other opening = (refl, refl)
stage_state_other opened = (refl, refl)
stage_state_other inbox = (refl, refl)
stage_state_other dead = (refl, refl)
stage_state_other undeliverable = (refl, refl)
stage_state_other unresolved = (refl, refl)

stage_state-partial : (s : Stage) → partial ≢ stage_state s
stage_state-partial s h =
    let (other, _) = stage_state_other s in cc (same_state_self partial, other, h)

stage_state-unknown : (s : Stage) → unknown ≢ stage_state s
stage_state-unknown s h =
    let (_, other) = stage_state_other s in cc (same_state_self unknown, other, h)

pub both_left : (a b : Bool) → (a && b) ≡ true → a ≡ true
both_left a b h = ground arith

both_right : (a b : Bool) → (a && b) ≡ true → b ≡ true
both_right a b h = ground arith

-- Every location of the list has the state `s`.
abbrev pub all_in : State → List Location → Bool
all_in s = all λ l. same_state (stage_state l.stage) s

add_state_none : (s : State) (ts : List State) → add_state s ts ≢ []
unfolding add_state
add_state_none s [] h = absurd (cc h)
add_state_none s (t ∷ ts) h = elim (Bool-cases (same_state s t)) [
  | inl e ↦ absurd (cc (rw e at h))
  | inr e ↦ absurd (cc (rw e at h))
]

-- What `states` is of a list whose states are `ts`, with one more in front.
added_one :
    (s t : State) (ts : List State)
    → add_state s ts ≡ t ∷ []
    → (same_state s t ≡ true) × (ts ≢ [] → ts ≡ t ∷ [])
unfolding add_state
added_one s t [] h = (
  subst (λ x. same_state s x ≡ true) (cc h) (same_state_self s),
  λ some_there. absurd (some_there refl),
)
added_one s t (u ∷ ts) h = elim (Bool-cases (same_state s u)) [
  | inl e ↦
      let is : u ∷ ts ≡ t ∷ [] = rw e at h in
      (subst (λ x. same_state s x ≡ true) (cc is) e, λ some_there. is)
  | inr e ↦ let is : u ∷ add_state s ts ≡ t ∷ [] = rw e at h in absurd (add_state_none s ts (cc is))
]

states_none : (ls : List Location) → states ls ≡ [] → ls ≡ []
unfolding states
states_none [] h = refl
states_none (l ∷ ls) h = absurd (add_state_none (stage_state l.stage) (states ls) h)

-- One state means that all are in it, and the other way round.
states_one : (s : State) (ls : List Location) → states ls ≡ s ∷ [] → all_in s ls ≡ true
unfolding states
states_one s [] h = absurd (cc h)
states_one s (l ∷ []) h = let (same, _) = added_one (stage_state l.stage) s [] h in rw same refl
states_one s (l ∷ k ∷ ls) h =
    let (same, rest) = added_one (stage_state l.stage) s (states (k ∷ ls)) h in
    rw (same, states_one s (k ∷ ls) (rest (add_state_none (stage_state k.stage) (states ls)))) refl

states_all :
    (s : State) (l : Location) (ls : List Location)
    → all_in s (l ∷ ls) ≡ true
    → states (l ∷ ls) ≡ s ∷ []
unfolding states add_state
states_all s l [] h = ap (λ x. x ∷ []) (same_state_eq (stage_state l.stage) s (both_left _ true h))
states_all s l (k ∷ ls) h =
    subst (λ ts. add_state (stage_state l.stage) ts ≡ s ∷ [])
      (sym (states_all s k ls (both_right _ _ h)))
      (rw (both_left (same_state (stage_state l.stage) s) _ h) refl)

state_of_one : (s : Stage) (ts : List State) → state_of ts ≡ stage_state s → ts ≡ stage_state s ∷ []
state_of_one s [] h = absurd (stage_state-unknown s h)
state_of_one s (t ∷ []) h = ap (λ x. x ∷ []) h
state_of_one s (t ∷ u ∷ ts) h = absurd (stage_state-partial s h)

pub of_stage :
    (s : Stage) (l : Location) (ls : List Location)
    → (overall_state (l ∷ ls) ≡ stage_state s) ↔ (all_in (stage_state s) (l ∷ ls) ≡ true)
unfolding overall_state
of_stage s l ls = (
  (λ h. states_one (stage_state s) (l ∷ ls) (state_of_one s (states (l ∷ ls)) h)),
  λ h. ap state_of (states_all (stage_state s) l ls h),
)

known_of :
    (l : Location) (ls : List Location) (ts : List State)
    → states (l ∷ ls) ≡ ts
    → state_of ts ≢ unknown
unfolding states
known_of l ls [] h e = absurd (add_state_none (stage_state l.stage) (states ls) h)
known_of l ls (t ∷ []) h e =
    let (_, other) = stage_state_other l.stage in
    let same = both_left (same_state (stage_state l.stage) t) _ (states_one t (l ∷ ls) h) in
    cc (same, other, e)
known_of l ls (t ∷ u ∷ ts) h e = cc e

pub overall_state_known : (l : Location) (ls : List Location) → overall_state (l ∷ ls) ≢ unknown
unfolding overall_state
overall_state_known l ls = known_of l ls (states (l ∷ ls)) refl
