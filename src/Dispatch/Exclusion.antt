-- ===== src/Dispatch/Exclusion.antt =====
-- The lease of an agent: at most one holder inside the context has time left.
use h_mesh.Base.{
  ℕ, ◌+◌, ◌≤◌, ◌≡◌, ◌≢◌, refl, sym, subst, ◌∙◌, ◌⊎◌, inl, inr, true, Option, none, some, List, [],
  ◌∷◌, Text, ◌=t◌, =t_eq, =t_false, arith, Bool-cases,
}
use h_mesh.Dispatch.Lease.{Lease, live, set_live, renew_live, release_live, All, extend, without}

-- What the holder `h` knows is covered by the key.
abbrev pub IsCovered : ℕ → Option Lease → Lease → Type 0
IsCovered now none h = h.until ≤ now
IsCovered now (some l) h = (h.until ≤ now) ⊎ ((l.token ≡ h.token) × (h.until ≤ l.until))

abbrev pub IsBounded : ℕ → ℕ → Option Lease → Type 0
IsBounded now ms none = Unit
IsBounded now ms (some l) = l.until ≤ now + ms

abbrev pub IsDistinct : List Lease → Type 0
IsDistinct [] = Unit
IsDistinct (h ∷ hs) = All (λ k. k.token ≢ h.token) hs × IsDistinct hs

module _ (P Q : Lease → Type 0) (f : (h : Lease) → P h → Q h) where
  pub All-map : (hs : List Lease) → All P hs → All Q hs
  All-map [] p = tt
  All-map (h ∷ hs) (p, ps) = (f h p, All-map hs ps)

module _ (P : Lease → Type 0) (token : Text) where
  pub All-without : (hs : List Lease) → All P hs → All P (without token hs)
  unfolding without
  All-without [] p = tt
  All-without (h ∷ hs) (p, ps) = elim (Bool-cases (h.token =t token)) [
    | inl e ↦ rw e (All-without hs ps)
    | inr e ↦ rw e (p, All-without hs ps)
  ]

pub IsDistinct-without :
    (token : Text) (hs : List Lease) → IsDistinct hs → IsDistinct (without token hs)
unfolding without
IsDistinct-without token [] p = tt
IsDistinct-without token (h ∷ hs) (p, ps) = elim (Bool-cases (h.token =t token)) [
  | inl e ↦ rw e (IsDistinct-without token hs ps)
  | inr e ↦ rw e (All-without (λ k. k.token ≢ h.token) token hs p, IsDistinct-without token hs ps)
]

-- Who stays after `without` has another token.
pub without_other : (token : Text) (hs : List Lease) → All (λ h. h.token ≢ token) (without token hs)
unfolding without
without_other token [] = tt
without_other token (h ∷ hs) = elim (Bool-cases (h.token =t token)) [
  | inl e ↦ rw e (without_other token hs)
  | inr e ↦ rw e (=t_false h.token token e, without_other token hs)
]

module _ (new : Lease) where
  pub extend_other :
      (token : Text) (hs : List Lease)
      → All (λ h. h.token ≢ token) hs
      → All (λ h. h.token ≢ token) (extend new hs)
  unfolding extend
  extend_other token [] p = tt
  extend_other token (h ∷ hs) (p, ps) = elim (Bool-cases (h.token =t new.token)) [
    | inl e ↦ rw e ((λ same. p (◌∙◌ (=t_eq h.token new.token e) same)), extend_other token hs ps)
    | inr e ↦ rw e (p, extend_other token hs ps)
  ]

  pub IsDistinct-extend : (hs : List Lease) → IsDistinct hs → IsDistinct (extend new hs)
  unfolding extend
  IsDistinct-extend [] p = tt
  IsDistinct-extend (h ∷ hs) (p, ps) = elim (Bool-cases (h.token =t new.token)) [
    | inl e ↦ rw e (
      subst (λ t. All (λ k. k.token ≢ t) (extend new hs)) (=t_eq h.token new.token e)
          (extend_other h.token hs p),
      IsDistinct-extend hs ps,
    )
    | inr e ↦ rw e (extend_other h.token hs p, IsDistinct-extend hs ps)
  ]

  pub All-extend :
      (P : Lease → Type 0) → P new → (hs : List Lease) → All P hs → All P (extend new hs)
  unfolding extend
  All-extend P n [] p = tt
  All-extend P n (h ∷ hs) (p, ps) = elim (Bool-cases (h.token =t new.token)) [
    | inl e ↦ rw e (n, All-extend P n hs ps)
    | inr e ↦ rw e (p, All-extend P n hs ps)
  ]

pub IsCovered-live :
    (now : ℕ) (lock : Option Lease) (h : Lease)
    → IsCovered now lock h
    → IsCovered now (live now lock) h
unfolding live
IsCovered-live now none h c = c
IsCovered-live now (some l) h c = ground arith

pub IsBounded-live :
    (now ms : ℕ) (lock : Option Lease) → IsBounded now ms lock → IsBounded now ms (live now lock)
unfolding live
IsBounded-live now ms none b = b
IsBounded-live now ms (some l) b = ground arith

module _ (now ms : ℕ) (token : Text) where
  pub set_live-IsCovered :
      (lock : Option Lease) (h : Lease)
      → IsCovered now lock h
      → IsCovered now (set_live (record { token = token; until = now + ms }) lock).1 h
  set_live-IsCovered none h c = ground arith
  set_live-IsCovered (some l) h c = c

  pub set_live-IsBounded :
      (lock : Option Lease)
      → IsBounded now ms lock
      → IsBounded now ms (set_live (record { token = token; until = now + ms }) lock).1
  set_live-IsBounded none b = omega arith
  set_live-IsBounded (some l) b = b

  -- The lease that a caller is told of covers it.
  pub set_live-own :
      (lock : Option Lease)
      → (set_live (record { token = token; until = now + ms }) lock).0 ≡ true
      → IsCovered now
          (set_live (record { token = token; until = now + ms }) lock).1
          (record { token = token; until = now + ms })
  set_live-own none h = inr (refl, omega arith)
  set_live-own (some l) h = absurd (cc h)

  pub renew_live-IsCovered :
      (lock : Option Lease) (h : Lease)
      → IsBounded now ms lock
      → IsCovered now lock h
      → IsCovered now (renew_live (record { token = token; until = now + ms }) lock).1 h
  renew_live-IsCovered none h b c = c
  renew_live-IsCovered (some l) h b c = elim (Bool-cases (l.token =t token)) [
    | inl e ↦ rw e (elim c [
      | inl out ↦ inl out
      | inr (same, longer) ↦ inr (◌∙◌ (sym (=t_eq l.token token e)) same, omega (arith, b, longer))
    ])
    | inr e ↦ rw e c
  ]

  pub renew_live-IsBounded :
      (lock : Option Lease)
      → IsBounded now ms lock
      → IsBounded now ms (renew_live (record { token = token; until = now + ms }) lock).1
  renew_live-IsBounded none b = b
  renew_live-IsBounded (some l) b = elim (Bool-cases (l.token =t token)) [
    | inl e ↦ rw e (omega arith)
    | inr e ↦ rw e b
  ]

  pub renew_live-own :
      (lock : Option Lease)
      → (renew_live (record { token = token; until = now + ms }) lock).0 ≡ true
      → IsCovered now
          (renew_live (record { token = token; until = now + ms }) lock).1
          (record { token = token; until = now + ms })
  renew_live-own none h = absurd (cc h)
  renew_live-own (some l) h = elim (Bool-cases (l.token =t token)) [
    | inl e ↦ rw e (inr (refl, omega arith))
    | inr e ↦ absurd (cc (h, e))
  ]

  pub release_live-IsCovered :
      (lock : Option Lease) (h : Lease)
      → h.token ≢ token
      → IsCovered now lock h
      → IsCovered now (release_live token lock).1 h
  release_live-IsCovered none h other c = c
  release_live-IsCovered (some l) h other c = elim (Bool-cases (l.token =t token)) [
    | inl e ↦ rw e (elim c [
      | inl out ↦ out
      | inr (same, longer) ↦ absurd (other (◌∙◌ (sym same) (=t_eq l.token token e)))
    ])
    | inr e ↦ rw e c
  ]

  pub release_live-IsBounded :
      (lock : Option Lease) → IsBounded now ms lock → IsBounded now ms (release_live token lock).1
  release_live-IsBounded none b = b
  release_live-IsBounded (some l) b = elim (Bool-cases (l.token =t token)) [
    | inl e ↦ rw e tt
    | inr e ↦ rw e b
  ]

pub IsCovered-later :
    (now n : ℕ) (lock : Option Lease) (h : Lease)
    → IsCovered now lock h
    → IsCovered (now + n) lock h
IsCovered-later now n none h c = omega (arith, c)
IsCovered-later now n (some l) h c = ground arith

pub IsBounded-later :
    (now n ms : ℕ) (lock : Option Lease) → IsBounded now ms lock → IsBounded (now + n) ms lock
IsBounded-later now n ms none b = b
IsBounded-later now n ms (some l) b = omega (arith, b)
