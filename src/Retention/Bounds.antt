-- ===== src/Retention/Bounds.antt =====
-- What is left of the lists after a pass.
use h_mesh.Base.{
  ℕ, ◌-◌, ◌≡◌, ◌≢◌, refl, sym, ap, subst, ◌∙◌, ◌⊎◌, inl, inr, Bool, true, false, ◌||◌, some, List,
  [], ◌∷◌, length, drop, length-drop, Text, codes, ◌=t◌, =t_eq, eq_=t, =t-self, elem_text,
  Bool-cases, arith,
}
use h_mesh.Errors.{ok_eq, ok, Result, >>=_elim}
use h_mesh.Keys.{agent_key}
use h_mesh.Keys.Structure.{prefix-injective}
use h_mesh.Envelope.Header.{Raw}
use h_mesh.Redis.{Redis}
use h_mesh.Redis.World.{World, lift_elim, command_ok}
use h_mesh.Receipts.{sorted_set}
use h_mesh.Receipts.Known.{elem_text-sorted_set}
use h_mesh.Retention.{Caps, newest, trims, trim_each, retain}

key_eq : {k k' : Text} {r : Result Text} → r ≡ ok k → r ≡ ok k' → k ≡ k'
key_eq p q = cc (p, q)

either : (a b c : Bool) → b ≡ true → (a || (b || c)) ≡ true
either a b c h = ground arith

later : (a b c : Bool) → c ≡ true → (a || (b || c)) ≡ true
later a b c h = ground arith

newest-newest : (b : ℕ) (xs : List Raw) → newest b (newest b xs) ≡ newest b xs
newest-newest b xs =
    let none_left : length (drop (length xs - b) xs) - b ≡ 0 =
      ground (arith, length-drop (length xs - b) xs) in
    rw none_left refl

-- Every command on the key `k` keeps `b` entries.
abbrev AllAt : Text → ℕ → List (Text × ℕ) → Type 0
AllAt k b [] = Unit
AllAt k b ((key, bound) ∷ rest) = (key ≡ k → bound ≡ b) × AllAt k b rest

unfoldable has_key : Text → List (Text × ℕ) → Bool
has_key k [] = false
has_key k ((key, bound) ∷ rest) = key =t k || has_key k rest

module _ (R : Redis) (k : Text) (b : ℕ) where
  put_at :
      (key : Text) (bound : ℕ) (d : R.Db)
      → (key ≡ k → bound ≡ b)
      → (key =t k) ≡ true
      → R.items (R.put_items d key (newest bound (R.items d key))) k ≡ newest b (R.items d k)
  put_at key bound d fits e =
      let same = =t_eq key k e in
      subst (λ x. R.items (R.put_items d x (newest bound (R.items d x))) k ≡ newest b (R.items d k))
        (sym same)
        (◌∙◌ (R.items-put_items d k (newest bound (R.items d k)) k)
          (rw (=t-self k) (ap (λ n. newest n (R.items d k)) (fits same))))

  put_off :
      (key : Text) (bound : ℕ) (d : R.Db)
      → (key =t k) ≡ false
      → R.items (R.put_items d key (newest bound (R.items d key))) k ≡ R.items d k
  put_off key bound d e = ◌∙◌ (R.items-put_items d key (newest bound (R.items d key)) k) (rw e refl)

  trim_each-newest :
      (commands : List (Text × ℕ)) (d : R.Db)
      → AllAt k b commands
      → (R.items (trim_each R commands d) k ≡ R.items d k)
        ⊎ (R.items (trim_each R commands d) k ≡ newest b (R.items d k))
  unfolding trim_each
  trim_each-newest [] d fits = inl refl
  trim_each-newest ((key, bound) ∷ rest) d (fit, fits) =
      let then_kept =
        trim_each-newest rest (R.put_items d key (newest bound (R.items d key))) fits in
      elim (Bool-cases (key =t k)) [
        | inl e ↦
            let put = put_at key bound d fit e in
            elim then_kept [
              | inl kept ↦ inr (◌∙◌ kept put)
              | inr cut ↦ inr (◌∙◌ cut (◌∙◌ (ap (newest b) put) (newest-newest b (R.items d k))))
            ]
        | inr e ↦
            let put = put_off key bound d e in
            elim then_kept [
              | inl kept ↦ inl (◌∙◌ kept put)
              | inr cut ↦ inr (◌∙◌ cut (ap (newest b) put))
            ]
      ]

  trim_each-has_key :
      (commands : List (Text × ℕ)) (d : R.Db)
      → AllAt k b commands
      → has_key k commands ≡ true
      → R.items (trim_each R commands d) k ≡ newest b (R.items d k)
  unfolding trim_each has_key
  trim_each-has_key [] d fits there = absurd (cc there)
  trim_each-has_key ((key, bound) ∷ rest) d (fit, fits) there = elim (Bool-cases (key =t k)) [
    | inl e ↦
        let put = put_at key bound d fit e in
        elim (trim_each-newest rest (R.put_items d key (newest bound (R.items d key))) fits) [
          | inl kept ↦ ◌∙◌ kept put
          | inr cut ↦ ◌∙◌ cut (◌∙◌ (ap (newest b) put) (newest-newest b (R.items d k)))
        ]
    | inr e ↦
        ◌∙◌
          (trim_each-has_key rest (R.put_items d key (newest bound (R.items d key))) fits
            (rw e at there))
          (ap (newest b) (put_off key bound d e))
  ]

module _ (pod tenant : Text) (caps : Caps) (agent resource : Text) {k : Text} {b : ℕ}
    (is : agent_key pod tenant agent resource ≡ ok k)
    (done_fits : codes "tasks.done" ≡ resource → caps.board_done_max ≡ b)
    (dead_fits : codes "dead" ≡ resource → caps.dead_max ≡ b) where
  own_resource :
      (a r : Text) {key : Text} → agent_key pod tenant a r ≡ ok key → key ≡ k → r ≡ resource
  own_resource a r h e =
      let (_, _, _, same) =
        prefix-injective pod tenant pod tenant (some a) (some r) (some agent) (some resource)
          (◌∙◌ h (ap ok e)) is in
      cc same

  trims-AllAt :
      (agents : List Text) (commands : List (Text × ℕ))
      → trims pod tenant caps agents ≡ ok commands
      → AllAt k b commands
  unfolding trims
  trims-AllAt [] commands h = subst (AllAt k b) (ok_eq h) tt
  trims-AllAt (a ∷ agents) commands h =
      >>=_elim (agent_key pod tenant a (codes "tasks.done")) h λ done hd h1.
        >>=_elim (agent_key pod tenant a (codes "dead")) h1 λ dead hx h2.
          >>=_elim (trims pod tenant caps agents) h2 λ rest hr h3. subst (AllAt k b) (ok_eq h3) (
            (λ e. done_fits (own_resource a (codes "tasks.done") hd e)),
            ((λ e. dead_fits (own_resource a (codes "dead") hx e)), trims-AllAt agents rest hr),
          )

  own_key :
      (a r : Text) {key : Text}
      → a ≡ agent
      → r ≡ resource
      → agent_key pod tenant a r ≡ ok key
      → (key =t k) ≡ true
  own_key a r {key} e f h = eq_=t key k (
      key_eq
        (subst (λ x. agent_key pod tenant x resource ≡ ok key) e
          (subst (λ x. agent_key pod tenant a x ≡ ok key) f h))
        is)

  trims-has_key :
      (codes "tasks.done" ≡ resource) ⊎ (codes "dead" ≡ resource)
      → (agents : List Text) (commands : List (Text × ℕ)) → elem_text agent agents ≡ true
      → trims pod tenant caps agents ≡ ok commands
      → has_key k commands ≡ true
  unfolding trims has_key elem_text
  trims-has_key which [] commands there h = absurd (cc there)
  trims-has_key which (a ∷ agents) commands there h =
      >>=_elim (agent_key pod tenant a (codes "tasks.done")) h λ done hd h1.
        >>=_elim (agent_key pod tenant a (codes "dead")) h1 λ dead hx h2.
          >>=_elim (trims pod tenant caps agents) h2 λ rest hr h3.
            subst (λ cs. has_key k cs ≡ true) (ok_eq h3)
              (elim (Bool-cases (agent =t a)) [
                | inl e ↦ elim which [
                  | inl r ↦ rw (own_key a (codes "tasks.done") (sym (=t_eq agent a e)) r hd) refl
                  | inr r ↦
                      either (done =t k) _ _ (own_key a (codes "dead") (sym (=t_eq agent a e)) r hx)
                ]
                | inr e ↦
                    later (done =t k) (dead =t k) _
                      (trims-has_key which agents rest (rw e at there) hr)
              ])

  kept_newest :
      (R : Redis) (agents : List Text) (w v : World R.Db)
      → (codes "tasks.done" ≡ resource) ⊎ (codes "dead" ≡ resource)
      → elem_text agent agents ≡ true
      → retain R pod tenant caps agents w ≡ (ok tt, v)
      → R.items v.db k ≡ newest b (R.items w.db k)
  unfolding retain
  kept_newest R agents w v which there h =
      lift_elim (trims pod tenant caps (sorted_set agents)) _ h λ commands ht ran.
        let (run, _) = command_ok (λ d. (tt {0}, trim_each R commands d)) w ran in
        ◌∙◌ (sym (ap (λ r. R.items (r.1) k) run)) (
          trim_each-has_key R k b commands w.db (trims-AllAt (sorted_set agents) commands ht) (
            trims-has_key which (sorted_set agents) commands
              (elem_text-sorted_set agent agents there) ht))

distinct : codes "tasks.done" ≢ codes "dead"
unfolding ◌=t◌
distinct h = absurd (cc (eq_=t (codes "tasks.done") (codes "dead") h))

-- When a pass over the agents has returned, under any faults, the finished tasks and the dead frames of
-- each of them are the newest that its caps allow, in their order.
pub retain-newest :
    (R : Redis) (pod tenant : Text) (caps : Caps) (agents : List Text) (agent : Text)
    {done dead : Text} (w v : World R.Db)
    → agent_key pod tenant agent (codes "tasks.done") ≡ ok done
    → agent_key pod tenant agent (codes "dead") ≡ ok dead
    → elem_text agent agents ≡ true
    → retain R pod tenant caps agents w ≡ (ok tt, v)
    → (R.items v.db done ≡ newest caps.board_done_max (R.items w.db done))
      × (R.items v.db dead ≡ newest caps.dead_max (R.items w.db dead))
retain-newest R pod tenant caps agents agent w v hd hx there h = (
  kept_newest pod tenant caps agent (codes "tasks.done") hd (λ e. refl)
      (λ e. absurd (distinct (sym e))) R agents w v (inl refl) there h,
  kept_newest pod tenant caps agent (codes "dead") hx (λ e. absurd (distinct e)) (λ e. refl) R
      agents w v (inr refl) there h,
)
