-- ===== src/Channels/Outcomes.antt =====
-- `receive`: what holds of every run, on any state of the lists, under any faults.
use h_mesh.Base.{ℕ, ◌+◌, ◌≤◌, ◌<◌, ◌≡◌, ◌≢◌, ◌⊎◌, true, false, Option, some, length, Text}
use h_mesh.Errors.{ok}
use h_mesh.Envelope.Values.{Fields}
use h_mesh.Envelope.Frames.{Json}
use h_mesh.Redis.{Redis}
use h_mesh.Redis.World.{World, Action}
use h_mesh.Channels.{Lua, Moment}
use h_mesh.Channels.Custody.{Custody, custody_keys, opened_receipt_max}
use h_mesh.Channels.Receive.{Shows, receive}
use h_mesh.Channels.Places.{ingress, opened}
use h_mesh.Channels.Moves.{size}
use h_mesh.Channels.Progress.{claims, waiting, held}
use h_mesh.Channels.Opening.{IsSame}
use h_mesh.Channels.Receiving.{
  receive-Received, Received-Progress, Received-claims, Received-drained, Received-total,
}

module _ (R : Redis) (json : Json) (lua : Lua) (shows : Shows) (pod tenant agent : Text)
    (openers : Text → Option (Fields → Action R.Db (Unit {0}))) {c : Custody}
    (built : custody_keys pod tenant agent ≡ ok c)
    (quiet : (kind : Text) (opener : Fields → Action R.Db (Unit {0}))
      → openers kind ≡ some opener
      → (envelope : Fields) (w : World R.Db) → IsSame R c w (opener envelope w).1)
    (moments : ℕ → Moment) (fuel : ℕ) (w : World R.Db) where
  -- Where openers write neither the custody lists of the agent nor call openers, the calls of openers and
  -- the frames in the ingress and processing lists together never become more: each call has used up
  -- a waiting frame. So it is for every outcome of `receive`, under any faults, from any state.
  pub receive-once :
      length (receive R json lua shows pod tenant agent openers moments fuel w).1.opener_calls
        + waiting R c (receive R json lua shows pod tenant agent openers moments fuel w).1.db
      ≤ length w.opener_calls + waiting R c w.db
  receive-once =
      (Received-Progress R c fuel w _ (
        receive-Received R json lua shows pod tenant agent openers built quiet moments fuel w)).once

  -- Under the same condition `receive`, whatever its outcome and the faults, leaves as many frames in the
  -- six custody lists together as it found, and takes none from the receipts; or the receipts have
  -- reached their bound of 1000.
  pub receive-held :
      ((held R c (receive R json lua shows pod tenant agent openers moments fuel w).1.db
          ≡ held R c w.db)
        × (size R c w.db opened
            ≤ size R c
                (receive R json lua shows pod tenant agent openers moments fuel w).1.db
                opened))
      ⊎ (opened_receipt_max
          ≤ size R c (receive R json lua shows pod tenant agent openers moments fuel w).1.db opened)
  receive-held =
      (Received-Progress R c fuel w _ (
        receive-Received R json lua shows pod tenant agent openers built quiet moments fuel w)).kept

  -- Under the same condition, processing and opening together hold at most one frame after `receive`,
  -- whatever its outcome and the faults, if they did before.
  pub receive-claims :
      claims R c w.db ≤ 1
      → claims R c (receive R json lua shows pod tenant agent openers moments fuel w).1.db ≤ 1
  receive-claims =
      Received-claims R c fuel w _
        (receive-Received R json lua shows pod tenant agent openers built quiet moments fuel w)

  -- Under the same condition, if `receive` returns with fuel left and found at most one frame in processing
  -- and opening together, it leaves the ingress, processing and opening lists empty.
  pub receive-drained :
      (receive R json lua shows pod tenant agent openers moments fuel w).0 ≡ ok true
      → claims R c w.db ≤ 1
      → (size R c (receive R json lua shows pod tenant agent openers moments fuel w).1.db ingress
          ≡ 0)
        × (claims R c (receive R json lua shows pod tenant agent openers moments fuel w).1.db ≡ 0)
  receive-drained =
      Received-drained R c fuel w _
        (receive-Received R json lua shows pod tenant agent openers built quiet moments fuel w)

  -- Under the same condition, and as no other client writes the custody lists while it runs, `receive` does
  -- not run out of fuel when it has more of it than there are frames in ingress, processing and opening.
  pub receive_total :
      claims R c w.db + size R c w.db ingress < fuel
      → (receive R json lua shows pod tenant agent openers moments fuel w).0 ≢ ok false
  receive_total =
      Received-total R c fuel w _
        (receive-Received R json lua shows pod tenant agent openers built quiet moments fuel w)
