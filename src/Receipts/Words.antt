-- ===== src/Receipts/Words.antt =====
-- h-app/core/receipts.py: STAGE_STATE as a table by state, and when a list of locations has which state.
use h_mesh.Base.{◌≡◌, ◌∙◌, ◌≢◌, ◌↔◌, refl, sym, Bool, true, false, List, [], ◌∷◌, all}
use h_mesh.Receipts.{
  Stage, egress, ingress, processing, opening, opened, inbox, dead, undeliverable, unresolved,
  State, queued, delivering, delivered, failed, outcome_unresolved, unknown, partial, stage_state,
  same_state, Location, overall_state,
}
use h_mesh.Receipts.States.{all_in, of_stage, both_left, stage_state_other, overall_state_known}

of_unknown :
    (l : Location) (ls : List Location)
    → (overall_state (l ∷ ls) ≡ unknown) ↔ (all_in unknown (l ∷ ls) ≡ true)
of_unknown l ls = (
  (λ h. absurd (overall_state_known l ls h)),
  λ h.
      let (_, other) = stage_state_other l.stage in
      absurd (cc (other, both_left (same_state (stage_state l.stage) unknown) _ h)),
)

by_state :
    (s : State) (l : Location) (ls : List Location)
    → s ≢ partial
    → (overall_state (l ∷ ls) ≡ s) ↔ (all_in s (l ∷ ls) ≡ true)
unfolding stage_state
by_state queued l ls h = of_stage egress l ls
by_state delivering l ls h = of_stage opening l ls
by_state delivered l ls h = of_stage opened l ls
by_state failed l ls h = of_stage dead l ls
by_state outcome_unresolved l ls h = of_stage unresolved l ls
by_state unknown l ls h = of_unknown l ls
by_state partial l ls h = absurd (h refl)

-- The table of the stages by the word that each counts for.
unfoldable pub counts_as : State → Stage → Bool
counts_as queued egress = true
counts_as queued ingress = true
counts_as queued processing = true
counts_as delivering opening = true
counts_as delivered opened = true
counts_as delivered inbox = true
counts_as failed dead = true
counts_as failed undeliverable = true
counts_as outcome_unresolved unresolved = true
counts_as s stage = false

counts_as-same_state :
    (s : State) (stage : Stage) → s ≢ partial → counts_as s stage ≡ same_state (stage_state stage) s
unfolding counts_as same_state stage_state
counts_as-same_state queued egress h = refl
counts_as-same_state queued ingress h = refl
counts_as-same_state queued processing h = refl
counts_as-same_state queued opening h = refl
counts_as-same_state queued opened h = refl
counts_as-same_state queued inbox h = refl
counts_as-same_state queued dead h = refl
counts_as-same_state queued undeliverable h = refl
counts_as-same_state queued unresolved h = refl
counts_as-same_state delivering egress h = refl
counts_as-same_state delivering ingress h = refl
counts_as-same_state delivering processing h = refl
counts_as-same_state delivering opening h = refl
counts_as-same_state delivering opened h = refl
counts_as-same_state delivering inbox h = refl
counts_as-same_state delivering dead h = refl
counts_as-same_state delivering undeliverable h = refl
counts_as-same_state delivering unresolved h = refl
counts_as-same_state delivered egress h = refl
counts_as-same_state delivered ingress h = refl
counts_as-same_state delivered processing h = refl
counts_as-same_state delivered opening h = refl
counts_as-same_state delivered opened h = refl
counts_as-same_state delivered inbox h = refl
counts_as-same_state delivered dead h = refl
counts_as-same_state delivered undeliverable h = refl
counts_as-same_state delivered unresolved h = refl
counts_as-same_state failed egress h = refl
counts_as-same_state failed ingress h = refl
counts_as-same_state failed processing h = refl
counts_as-same_state failed opening h = refl
counts_as-same_state failed opened h = refl
counts_as-same_state failed inbox h = refl
counts_as-same_state failed dead h = refl
counts_as-same_state failed undeliverable h = refl
counts_as-same_state failed unresolved h = refl
counts_as-same_state outcome_unresolved egress h = refl
counts_as-same_state outcome_unresolved ingress h = refl
counts_as-same_state outcome_unresolved processing h = refl
counts_as-same_state outcome_unresolved opening h = refl
counts_as-same_state outcome_unresolved opened h = refl
counts_as-same_state outcome_unresolved inbox h = refl
counts_as-same_state outcome_unresolved dead h = refl
counts_as-same_state outcome_unresolved undeliverable h = refl
counts_as-same_state outcome_unresolved unresolved h = refl
counts_as-same_state unknown egress h = refl
counts_as-same_state unknown ingress h = refl
counts_as-same_state unknown processing h = refl
counts_as-same_state unknown opening h = refl
counts_as-same_state unknown opened h = refl
counts_as-same_state unknown inbox h = refl
counts_as-same_state unknown dead h = refl
counts_as-same_state unknown undeliverable h = refl
counts_as-same_state unknown unresolved h = refl
counts_as-same_state partial stage h = absurd (h refl)

all_count :
    (s : State) (ls : List Location) → s ≢ partial → all (λ l. counts_as s l.stage) ls ≡ all_in s ls
all_count s [] h = refl
all_count s (l ∷ ls) h = rw (counts_as-same_state s l.stage h, all_count s ls h) refl

-- A list of at least one location has a state other than partial if and only if each of its locations
-- counts for that state, by the table of `counts_as` (so a list that is not empty is never unknown).
pub overall_state_iff :
    (s : State) (l : Location) (ls : List Location)
    → s ≢ partial
    → (overall_state (l ∷ ls) ≡ s) ↔ (all (λ k. counts_as s k.stage) (l ∷ ls) ≡ true)
overall_state_iff s l ls h =
    let (there, back) = by_state s l ls h in
    (
      (λ e. ◌∙◌ (all_count s (l ∷ ls) h) (there e)),
      λ e. back (◌∙◌ (sym (all_count s (l ∷ ls) h)) e),
    )
