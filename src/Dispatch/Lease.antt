-- ===== src/Dispatch/Lease.antt =====
-- h-app/core/dispatch.py: delivery_lock, the lease that serializes the deliveries to one agent. Redis
-- keeps the lease until its time has run out; all that holders do to it are the three commands here.
use h_mesh.Base.{
  ℕ, suc, ◌+◌, ◌≡◌, ◌≢◌, Bool, true, false, Option, none, some, List, [], ◌∷◌, if◌then◌else◌, Text,
  ◌=t◌, ltb,
}

-- A token, and the time at which what it was granted runs out.
pub record Lease : Type 0 where
  pub token : Text
  pub until : ℕ

-- The key as Redis reads it at `now`.
unfoldable pub live : ℕ → Option Lease → Option Lease
live now none = none
live now (some lease) = if ltb now lease.until then some lease else none

abbrev pub set_live : Lease → Option Lease → Bool × Option Lease
set_live new none = (true, some new)
set_live new (some lease) = (false, some lease)

-- r.set(lock_key, token, nx=True, px=lease_ms)
unfoldable pub acquire : ℕ → ℕ → Text → Option Lease → Bool × Option Lease
acquire now lease_ms token lock =
    set_live (record { token = token; until = now + lease_ms }) (live now lock)

abbrev pub renew_live : Lease → Option Lease → Bool × Option Lease
renew_live new none = (false, none)
renew_live new (some lease) =
    if lease.token =t new.token then (true, some new) else (false, some lease)

unfoldable pub renew_script : ℕ → ℕ → Text → Option Lease → Bool × Option Lease
renew_script now lease_ms token lock =
    renew_live (record { token = token; until = now + lease_ms }) (live now lock)

abbrev pub release_live : Text → Option Lease → Bool × Option Lease
release_live token none = (false, none)
release_live token (some lease) = if lease.token =t token then (true, none) else (false, some lease)

unfoldable pub release_script : ℕ → Text → Option Lease → Bool × Option Lease
release_script now token lock = release_live token (live now lock)

-- The clock, the key, and the holders inside the context with the lease that each knows of.
pub record Lock : Type 0 where
  pub now : ℕ
  pub lease : Option Lease
  pub inside : List Lease

abbrev pub All : (Lease → Type 0) → List Lease → Type 0
All P [] = Unit
All P (h ∷ hs) = P h × All P hs

unfoldable pub extend : Lease → List Lease → List Lease
extend new [] = []
extend new (h ∷ hs) = (if h.token =t new.token then new else h) ∷ extend new hs

unfoldable pub without : Text → List Lease → List Lease
without token [] = []
without token (h ∷ hs) = let rest = without token hs in if h.token =t token then rest else h ∷ rest

-- What any holder, and time, may do next. Where a reply is lost, the key has changed and its holder
-- does not know. `leaves` is the end of the context; a process that is killed leaves without release.
pub data Step (lease_ms : ℕ) (s t : Lock) : Type 0 where
  passes : (n : ℕ) → t ≡ record s { now = s.now + n } → Step lease_ms s t
  enters :
      (token : Text)
      → All (λ h. h.token ≢ token) s.inside
      → (acquire s.now lease_ms token s.lease).0 ≡ true
      → t ≡ record s {
        lease = (acquire s.now lease_ms token s.lease).1;
        inside = record { token = token; until = s.now + lease_ms } ∷ s.inside;
      }
      → Step lease_ms s t
  stays_out :
      (token : Text)
      → t ≡ record s { lease = (acquire s.now lease_ms token s.lease).1 }
      → Step lease_ms s t
  renews :
      (token : Text)
      → (renew_script s.now lease_ms token s.lease).0 ≡ true
      → t ≡ record s {
        lease = (renew_script s.now lease_ms token s.lease).1;
        inside = extend (record { token = token; until = s.now + lease_ms }) s.inside;
      }
      → Step lease_ms s t
  renews_unseen :
      (token : Text)
      → t ≡ record s { lease = (renew_script s.now lease_ms token s.lease).1 }
      → Step lease_ms s t
  leaves :
      (token : Text)
      → t ≡ record s {
        lease = (release_script s.now token s.lease).1;
        inside = without token s.inside;
      }
      → Step lease_ms s t
  leaves_unreleased :
      (token : Text) → t ≡ record s { inside = without token s.inside } → Step lease_ms s t

pub data Reach (lease_ms : ℕ) (s : Lock) : Lock → Type 0 where
  here : Reach lease_ms s s
  next : {t u : Lock} → Reach lease_ms s t → Step lease_ms t u → Reach lease_ms s u

-- How many of the holders have time left.
unfoldable pub running : ℕ → List Lease → ℕ
running now [] = 0
running now (h ∷ hs) = let rest = running now hs in if ltb now h.until then suc rest else rest
