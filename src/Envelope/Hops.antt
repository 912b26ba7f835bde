-- ===== src/Envelope/Hops.antt =====
-- h-app/core/envelope.py: hops one after the other, as a frame makes them that goes from pod to pod.
use h_mesh.Base.{
  ℕ, zero, suc, ◌+◌, ◌-◌, ◌≤◌, ◌<◌, ◌==◌, ◌≡◌, refl, ap, subst, ◌∙◌, ◌⊎◌, inl, inr, arith,
  Bool-cases, ==→eq,
}
use h_mesh.Errors.{Result, ok, hops_exhausted, ◌>>=◌}
use h_mesh.Envelope.Checks.{fail}
use h_mesh.Envelope.Header.{Raw, Header, parse_for_switch, advance_hop}
use h_mesh.Envelope.Rewrites.{advance_hop-parse, advance_hop-exhausted, parse_for_switch-counters}

-- n hops, each on what the one before returned.
unfoldable pub make_hops : ℕ → Raw → Header → Result (Raw × Header)
make_hops zero raw h = ok (raw, h)
make_hops (suc n) raw h = advance_hop raw h >>= λ p. make_hops n p.0 p.1

abbrev pub with_counters : Header → ℕ → ℕ → Header
with_counters h ttl hops = record h { ttl = ttl; hops = hops }

abbrev pub Arrives : ℕ → Raw → Header → Header → Type 0
Arrives n raw h h' =
    (raw' : Raw) × (make_hops n raw h ≡ ok (raw', h')) × (parse_for_switch raw' ≡ ok h')

with_counters_eq :
    (n : ℕ) (raw : Raw) (h : Header) (a b a' b' : ℕ)
    → a ≡ a'
    → b ≡ b'
    → Arrives n raw h (with_counters h a b)
    → Arrives n raw h (with_counters h a' b')
with_counters_eq n raw h a b a' b' e e' =
    subst (λ k. Arrives n raw h k)
      (◌∙◌ (ap (λ x. with_counters h x b) e) (ap (λ y. with_counters h a' y) e'))

few_or_last : (n : ℕ) → n < 1000 → (n < 999) ⊎ (n ≡ 999)
few_or_last n h = elim (Bool-cases (n == 999)) [
  | inl e ↦ inr (==→eq n 999 e)
  | inr e ↦ inl (ground arith)
]

few_hops :
    (n : ℕ) (raw : Raw) (h : Header)
    → parse_for_switch raw ≡ ok h
    → h.hops + n ≤ 999
    → Arrives n raw h (with_counters h (h.ttl - n) (h.hops + n))
unfolding make_hops
few_hops zero raw h parsed few =
    with_counters_eq zero raw h h.ttl h.hops (h.ttl - 0) (h.hops + 0) (omega arith) (omega arith)
      (raw, refl, parsed)
few_hops (suc n) raw h parsed few =
    let (raw', hop, parsed', _, _, _, _) = advance_hop-parse raw h parsed (omega (arith, few)) in
    let (raw'', rest, parsed'') =
      few_hops n raw' (with_counters h (h.ttl - 1) (h.hops + 1)) parsed' (omega (arith, few)) in
    with_counters_eq (suc n) raw h ((h.ttl - 1) - n) ((h.hops + 1) + n) (h.ttl - suc n)
      (h.hops + suc n) (omega arith) (omega arith) (raw'', rw hop rest, parsed'')

many_hops :
    (n : ℕ) (raw : Raw) (h : Header)
    → parse_for_switch raw ≡ ok h
    → 999 < h.hops + n
    → make_hops n raw h ≡ fail hops_exhausted
unfolding make_hops
many_hops zero raw h parsed many =
    absurd (omega (arith, many, (parse_for_switch-counters raw h parsed).1))
many_hops (suc n) raw h parsed many =
    elim (few_or_last h.hops (parse_for_switch-counters raw h parsed).1) [
      | inl few ↦
          let (raw', hop, parsed', _, _, _, _) = advance_hop-parse raw h parsed few in
          rw hop (
            many_hops n raw' (with_counters h (h.ttl - 1) (h.hops + 1)) parsed'
              (omega (arith, many)))
      | inr last ↦ rw (advance_hop-exhausted raw h parsed last) refl
    ]

-- A frame that the switch can parse makes n hops in a row if the hops it has made and n are at most 999,
-- and then it parses to the same header with n hops more and its ttl n less (at least 0); otherwise the
-- row of hops ends in an error, and n hops can never be made.
pub make_hops_lem :
    (n : ℕ) (raw : Raw) (h : Header)
    → parse_for_switch raw ≡ ok h
    → (h.hops + n ≤ 999
        → (raw' : Raw) × (make_hops n raw h
            ≡ ok (raw', record h { ttl = h.ttl - n; hops = h.hops + n }))
          × (parse_for_switch raw' ≡ ok (record h { ttl = h.ttl - n; hops = h.hops + n })))
      × (999 < h.hops + n → make_hops n raw h ≡ fail hops_exhausted)
make_hops_lem n raw h parsed = (few_hops n raw h parsed, many_hops n raw h parsed)
