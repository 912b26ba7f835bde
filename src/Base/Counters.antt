-- ===== src/Base/Counters.antt =====
-- Python's f"{n:03d}" for n below 1000, and int() of three ASCII digits.
use Prim.Native.Nat.{ℕ, ◌+◌, ◌-◌, ◌*◌, ◌/◌, ◌%◌, ◌<◌}
use mathlib.Core.Path.{◌≡◌, refl, ap}
use mathlib.Core.Bool.{Bool, true, ◌&&◌, ◌||◌}
use mathlib.Core.Option.{Option, none, some}
use mathlib.Core.List.{[], ◌∷◌}
use native.Mathlib.Omega.{arith}
use h_mesh.Base.Tests.{leb, if◌then◌else◌}
use h_mesh.Base.Lists.{all, length}
use h_mesh.Base.Texts.{Text}

abbrev pub is_digit : ℕ → Bool
is_digit c = leb b'0' c && leb c b'9'

-- A lowercase hexadecimal digit.
abbrev pub is_hex : ℕ → Bool
is_hex c = is_digit c || (leb b'a' c && leb c b'f')

unfoldable pub three_digits : ℕ → Text
three_digits n = (48 + n / 100) ∷ (48 + n / 10 % 10) ∷ (48 + n % 10) ∷ []

value_of : ℕ → Text → ℕ
value_of n [] = n
value_of n (c ∷ s) = value_of (n * 10 + (c - 48)) s

-- int(text), where text is three ASCII digits; `none` where the length or a character is wrong.
unfoldable pub parse_three : Text → Option ℕ
unfolding value_of
parse_three (a ∷ b ∷ c ∷ []) =
    if all is_digit (a ∷ b ∷ c ∷ []) then some (value_of 0 (a ∷ b ∷ c ∷ [])) else none
parse_three _ = none

pub length-three_digits : (n : ℕ) → length (three_digits n) ≡ 3
unfolding three_digits
length-three_digits n = refl

three_digits-digits : (n : ℕ) → n < 1000 → all is_digit (three_digits n) ≡ true
unfolding three_digits
three_digits-digits n h = ground arith

pub parse_three-three_digits : (n : ℕ) → n < 1000 → parse_three (three_digits n) ≡ some n
unfolding parse_three three_digits
parse_three-three_digits n h = rw (three_digits-digits n h) (ap some (omega arith))

-- What three digits can hold.
pub parse_three-lt : (s : Text) {n : ℕ} → parse_three s ≡ some n → n < 1000
unfolding parse_three
parse_three-lt (a ∷ b ∷ c ∷ []) h = ground arith
parse_three-lt [] h = cc
parse_three-lt (a ∷ []) h = cc
parse_three-lt (a ∷ b ∷ []) h = cc
parse_three-lt (a ∷ b ∷ c ∷ d ∷ s) h = cc
