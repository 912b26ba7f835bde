-- ===== src/Channels/Progress.antt =====
-- What `receive` keeps at each step, under any faults: no frame is opened twice and none is lost.
use h_mesh.Base.{ℕ, ◌+◌, ◌≤◌, ◌≡◌, refl, ap, ◌⊎◌, length, arith}
use h_mesh.Redis.{Redis}
use h_mesh.Redis.World.{World}
use h_mesh.Channels.Custody.{Custody, opened_receipt_max}
use h_mesh.Channels.Places.{Place, ingress, processing, opening, opened, unresolved, dead, place}
use h_mesh.Channels.Moves.{size, Shift}

module _ (R : Redis) (c : Custody) where
  -- The frames that wait or are claimed, and the frames in any of the lists.
  abbrev pub waiting : R.Db → ℕ
  waiting d = size R c d ingress + size R c d processing

  abbrev pub claims : R.Db → ℕ
  claims d = size R c d processing + size R c d opening

  abbrev pub held : R.Db → ℕ
  held d =
      size R c d ingress
      + size R c d processing
      + size R c d opening
      + size R c d opened
      + size R c d unresolved
      + size R c d dead

  -- Each opener call has used up a waiting frame, and the lists hold as many frames as before unless
  -- the list of receipts is full.
  pub record Progress (v w : World R.Db) : Type 0 where
    pub once : length w.opener_calls + waiting w.db ≤ length v.opener_calls + waiting v.db
    pub kept :
        ((held w.db ≡ held v.db) × (size R c v.db opened ≤ size R c w.db opened))
        ⊎ (opened_receipt_max ≤ size R c w.db opened)

  pub Progress-refl : (w : World R.Db) → Progress w w
  Progress-refl w = ground arith

  pub Progress-trans : {u v w : World R.Db} → Progress u v → Progress v w → Progress u w
  Progress-trans p q = ground arith

  -- Lists and calls as they were.
  pub Progress-same :
      {v w : World R.Db}
      → ((p : Place) → R.items w.db (place c p) ≡ R.items v.db (place c p))
      → w.opener_calls ≡ v.opener_calls
      → Progress v w
  Progress-same {v} {w} lists calls = ground (
    arith,
    ap length calls,
    ap length (lists ingress),
    ap length (lists processing),
    ap length (lists opening),
    ap length (lists opened),
    ap length (lists unresolved),
    ap length (lists dead),
  )

  module _ {v w : World R.Db} (calls : w.opener_calls ≡ v.opener_calls) where
    pub rejected-Progress : Shift R c processing dead 0 v.db w.db → Progress v w
    rejected-Progress s = ground (
      arith,
      ap length calls,
      s.taken,
      s.given,
      s.others ingress refl refl,
      s.others opened refl refl,
      s.others unresolved refl refl,
      s.others opening refl refl,
    )

    pub dead-Progress : Shift R c opening dead 0 v.db w.db → Progress v w
    dead-Progress s = ground (
      arith,
      ap length calls,
      s.taken,
      s.given,
      s.others ingress refl refl,
      s.others opened refl refl,
      s.others unresolved refl refl,
      s.others processing refl refl,
    )

    pub opening-Progress : Shift R c processing opening 0 v.db w.db → Progress v w
    opening-Progress s = ground (
      arith,
      ap length calls,
      s.taken,
      s.given,
      s.others ingress refl refl,
      s.others opened refl refl,
      s.others unresolved refl refl,
      s.others dead refl refl,
    )

    pub unresolved-Progress : Shift R c opening unresolved 0 v.db w.db → Progress v w
    unresolved-Progress s = ground (
      arith,
      ap length calls,
      s.taken,
      s.given,
      s.others ingress refl refl,
      s.others opened refl refl,
      s.others processing refl refl,
      s.others dead refl refl,
    )

    pub opened-Progress : Shift R c opening opened opened_receipt_max v.db w.db → Progress v w
    opened-Progress s = ground (
      arith,
      ap length calls,
      s.taken,
      s.given,
      s.others ingress refl refl,
      s.others unresolved refl refl,
      s.others processing refl refl,
      s.others dead refl refl,
    )

    pub claim-Progress : Shift R c ingress processing 0 v.db w.db → Progress v w
    claim-Progress s = ground (
      arith,
      ap length calls,
      s.taken,
      s.given,
      s.others opening refl refl,
      s.others unresolved refl refl,
      s.others opened refl refl,
      s.others dead refl refl,
    )

  -- A claim adds one to the claims and takes one from the ingress list.
  pub claim_sizes :
      {d d' : R.Db}
      → Shift R c ingress processing 0 d d'
      → (claims d' ≡ claims d + 1) × (size R c d' ingress + 1 ≡ size R c d ingress)
  claim_sizes s = ground (arith, s.taken, s.given, s.others opening refl refl)
