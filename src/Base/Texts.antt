-- ===== src/Base/Texts.antt =====
-- Python texts as lists of code points (bytes as lists of numbers below 256): equality, ljust,
-- rstrip, split and join on a separator, and three-digit counters.
use Prim.Native.Nat.{ℕ, zero, suc, ◌-◌, ◌≤◌}
use Prim.Native.Char.{code}
use Prim.Native.String.{String}
use mathlib.Core.Path.{◌≡◌, refl}
use mathlib.Core.Logic.{◌≢◌, inl, inr}
use mathlib.Core.Bool.{Bool, true, false, not, ◌&&◌, ◌||◌}
use mathlib.Core.List.{List, [], ◌∷◌, ◌++◌}
use native.Mathlib.Omega.{arith}
use h_mesh.Base.Tests.{leb, ltb, ◌==◌, if◌then◌else◌, Bool-cases}
use h_mesh.Base.Lists.{length, replicate, all, length-append, length-replicate}

abbrev pub Text : Type 0
Text = List ℕ

-- The code points of a literal.
abbrev pub codes : String → Text
codes String.[] = []
codes (String.◌∷◌ c s) = code c ∷ codes s

infix 50 ◌=t◌
unfoldable pub ◌=t◌ : Text → Text → Bool
[] =t [] = true
(a ∷ s) =t (b ∷ t) = a == b && (s =t t)
_ =t _ = false

pub =t_eq : (s t : Text) → (s =t t) ≡ true → s ≡ t
unfolding ◌=t◌
=t_eq [] [] h = refl
=t_eq [] (b ∷ t) h = cc
=t_eq (a ∷ s) [] h = cc
=t_eq (a ∷ s) (b ∷ t) h = ground (arith, =t_eq s t)

pub =t-self : (s : Text) → (s =t s) ≡ true
unfolding ◌=t◌
=t-self [] = refl
=t-self (a ∷ s) = ground (arith, =t-self s)

pub eq_=t : (s t : Text) → s ≡ t → (s =t t) ≡ true
eq_=t s t e = rw e (=t-self t)

pub ne_=t : (s t : Text) → s ≢ t → (s =t t) ≡ false
ne_=t s t h = elim (Bool-cases (s =t t)) [ inl e ↦ absurd (h (=t_eq s t e)) | inr e ↦ e ]

pub =t_false : (s t : Text) → (s =t t) ≡ false → s ≢ t
=t_false s t h e = cc (h, eq_=t s t e)

-- value in {…}
unfoldable pub elem_text : Text → List Text → Bool
elem_text t [] = false
elem_text t (x ∷ xs) = (t =t x) || elem_text t xs

abbrev pub space : ℕ
space = b' '

-- str.ljust(n): spaces on the right up to n characters.
unfoldable pub ljust : ℕ → Text → Text
ljust n s = s ++ replicate (n - length s) space

pub length-ljust : (n : ℕ) (s : Text) → length s ≤ n → length (ljust n s) ≡ n
unfolding ljust
length-ljust n s h =
    omega (
      arith,
      length-append s (replicate (n - length s) space),
      length-replicate (n - length s) space,
    )

-- str.isspace of one character, as rstrip() without arguments tests it.
unfoldable pub is_space : ℕ → Bool
is_space c =
    (leb 9 c && leb c 13)
    || (leb 28 c && leb c 32)
    || (c == 0x85)
    || (c == 0xa0)
    || (c == 0x1680)
    || (leb 0x2000 c && leb c 0x200a)
    || (c == 0x2028)
    || (c == 0x2029)
    || (c == 0x202f)
    || (c == 0x205f)
    || (c == 0x3000)

-- str.rstrip()
strip_push : ℕ → Text → Text
strip_push c [] = if is_space c then [] else c ∷ []
strip_push c (d ∷ r) = c ∷ d ∷ r

unfoldable pub rstrip : Text → Text
unfolding strip_push
rstrip [] = []
rstrip (c ∷ s) = strip_push c (rstrip s)

rstrip-spaces : (n : ℕ) → rstrip (replicate n space) ≡ []
unfolding rstrip is_space
rstrip-spaces zero = refl
rstrip-spaces (suc n) = rw (rstrip-spaces n)

abbrev pub is_ink : ℕ → Bool
is_ink c = not (is_space c)

strip_push-ink : (c : ℕ) (r : Text) → is_ink c ≡ true → strip_push c r ≡ c ∷ r
unfolding strip_push
strip_push-ink c [] h = ground arith
strip_push-ink c (d ∷ r) h = refl

pub rstrip-append_spaces :
    (s : Text) (n : ℕ) → all is_ink s ≡ true → rstrip (s ++ replicate n space) ≡ s
unfolding rstrip
rstrip-append_spaces [] n h = rstrip-spaces n
rstrip-append_spaces (c ∷ s) n h =
    rw (rstrip-append_spaces s n (ground arith)) (strip_push-ink c s (ground arith))

-- Padding to a column and stripping again gives the name back.
pub rstrip-ljust : (n : ℕ) (s : Text) → all is_ink s ≡ true → rstrip (ljust n s) ≡ s
unfolding ljust
rstrip-ljust n s h = rstrip-append_spaces s (n - length s) h

-- The order of texts, by code points
unfoldable pub before : Text → Text → Bool
before [] t = true
before (c ∷ s) [] = false
before (c ∷ s) (d ∷ t) = let rest = before s t in ltb c d || ((c == d) && rest)
