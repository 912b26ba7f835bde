-- ===== src/Base/Splitting.antt =====
-- str.split and str.join on a one-character separator.
use Prim.Native.Nat.{ℕ}
use mathlib.Core.Path.{◌≡◌, refl, ap, ◌∙◌}
use mathlib.Core.Bool.{Bool, true, not, ◌||◌}
use mathlib.Core.List.{List, [], ◌∷◌, ◌++◌}
use native.Mathlib.Omega.{arith}
use h_mesh.Base.Tests.{◌==◌, if◌then◌else◌, ==-self}
use h_mesh.Base.Lists.{all}
use h_mesh.Base.Texts.{Text}

cons_first : ℕ → List Text → List Text
cons_first c [] = (c ∷ []) ∷ []
cons_first c (p ∷ ps) = (c ∷ p) ∷ ps

unfoldable pub split : ℕ → Text → List Text
unfolding cons_first
split sep [] = [] ∷ []
split sep (c ∷ s) = let rest = split sep s in if c == sep then [] ∷ rest else cons_first c rest

unfoldable pub join : ℕ → List Text → Text
join sep [] = []
join sep (p ∷ []) = p
join sep (p ∷ q ∷ ps) = p ++ (sep ∷ join sep (q ∷ ps))

abbrev pub lacks : ℕ → Text → Bool
lacks sep = all (λ c. not (c == sep))

split-append :
    (sep : ℕ) (p s : Text) → lacks sep p ≡ true → split sep (p ++ (sep ∷ s)) ≡ p ∷ split sep s
unfolding split
split-append sep [] s h = ground (arith, ==-self sep)
split-append sep (c ∷ p) s h = ground (arith, split-append sep p s)

pub split_one : (sep : ℕ) (p : Text) → lacks sep p ≡ true → split sep p ≡ p ∷ []
unfolding split
split_one sep [] h = refl
split_one sep (c ∷ p) h = ground (arith, split_one sep p)

-- Splitting what was joined gives the parts back, when no part holds the separator.
pub split-join :
    (sep : ℕ) (p : Text) (ps : List Text)
    → all (lacks sep) (p ∷ ps) ≡ true
    → split sep (join sep (p ∷ ps)) ≡ p ∷ ps
unfolding join
split-join sep p [] h = split_one sep p (ground arith)
split-join sep p (q ∷ ps) h =
    split-append sep p (join sep (q ∷ ps)) (ground arith)
    ∙ ap (λ r. p ∷ r) (split-join sep q ps (ground arith))

all-cons_first :
    (q : ℕ → Bool) (c : ℕ) (ps : List Text)
    → all (all q) (cons_first c ps) ≡ true
    → (q c ≡ true) × (all (all q) ps ≡ true)
unfolding cons_first
all-cons_first q c [] h = ground arith
all-cons_first q c (p ∷ ps) h = ground arith

-- What holds of every character of every part holds of the whole, the separator aside.
pub all-split :
    (q : ℕ → Bool) (sep : ℕ) (s : Text)
    → all (all q) (split sep s) ≡ true
    → all (λ c. q c || c == sep) s ≡ true
unfolding split
all-split q sep [] h = refl
all-split q sep (c ∷ s) h = ground (arith, all-cons_first q c (split sep s), all-split q sep s)
