-- ===== src/Base/Utf8.antt =====
-- bytes.decode("utf-8") and bytes.decode("ascii"), both strict.
use Prim.Native.Nat.{ℕ, ◌+◌, ◌-◌, ◌*◌, ◌/◌, ◌%◌}
use mathlib.Core.Path.{◌≡◌, refl}
use mathlib.Core.Bool.{Bool, true, ◌&&◌}
use mathlib.Core.Option.{Option, none, some}
use mathlib.Core.Option
use mathlib.Core.List.{List, [], ◌∷◌, ◌++◌}
use native.Mathlib.Omega.{arith}
use h_mesh.Base.Tests.{ltb, leb, ◌==◌, if◌then◌else◌, &&_true}
use h_mesh.Base.Lists.{all}
use h_mesh.Base.Texts.{Text}

abbrev pub is_ascii : ℕ → Bool
is_ascii c = ltb c 128

unfoldable pub decode_ascii : List ℕ → Option Text
decode_ascii s = if all is_ascii s then some s else none

-- Between two bytes: the continuation bytes still due, the bits so far, and the range of the next.
pub record Pending : Type 0 where
  pub due : ℕ
  pub bits : ℕ
  pub low : ℕ
  pub high : ℕ

abbrev idle : Pending
idle = record { due = 0; bits = 0; low = 128; high = 191 }

abbrev expect : ℕ → ℕ → ℕ → ℕ → Option (Option ℕ × Pending)
expect due bits low high = some (none, record { due = due; bits = bits; low = low; high = high })

lead : ℕ → Option (Option ℕ × Pending)
lead b =
    if ltb b 0x80
    then some (some b, idle)
    else if leb 0xc2 b && leb b 0xdf
    then expect 1 (b - 0xc0) 128 191
    else if b == 0xe0
    then expect 2 0 160 191
    else if b == 0xed
    then expect 2 13 128 159
    else if leb 0xe1 b && leb b 0xef
    then expect 2 (b - 0xe0) 128 191
    else if b == 0xf0
    then expect 3 0 144 191
    else if leb 0xf1 b && leb b 0xf3
    then expect 3 (b - 0xf0) 128 191
    else if b == 0xf4
    then expect 3 4 128 143
    else none

-- One byte: the character that it completes, if any, and what is pending after it.
pub next_byte : Pending → ℕ → Option (Option ℕ × Pending)
unfolding lead
next_byte p b =
    let value = p.bits * 64 + (b - 128) in
    if p.due == 0
    then lead b
    else if leb p.low b && leb b p.high
    then if p.due == 1 then some (some value, idle) else expect (p.due - 1) value 128 191
    else none

emit : Option ℕ → Text → Text
emit none s = s
emit (some c) s = c ∷ s

decode_from : Pending → List ℕ → Option Text
unfolding emit
decode_from p [] = if p.due == 0 then some [] else none
decode_from p (b ∷ s) = elim (next_byte p b) [
  | none ↦ none
  | some (c, q) ↦ Option.map (emit c) (decode_from q s)
]

unfoldable pub decode_utf8 : List ℕ → Option Text
unfolding decode_from
decode_utf8 = decode_from idle

next_byte-ascii : (c : ℕ) → is_ascii c ≡ true → next_byte idle c ≡ some (some c, idle)
unfolding next_byte
next_byte-ascii c h = rw h

decode_from-ascii : (s : Text) → all is_ascii s ≡ true → decode_from idle s ≡ some s
unfolding decode_from
decode_from-ascii [] h = refl
decode_from-ascii (c ∷ s) h = ground (
  arith,
  next_byte-ascii c (&&_true (is_ascii c) _ h).0,
  decode_from-ascii s (&&_true (is_ascii c) _ h).1,
)

pub decode_utf8-ascii : (s : Text) → all is_ascii s ≡ true → decode_utf8 s ≡ some s
unfolding decode_utf8
decode_utf8-ascii s h = decode_from-ascii s h

euro : decode_utf8 (0xe2 ∷ 0x82 ∷ 0xac ∷ 33 ∷ []) ≡ some (0x20ac ∷ 33 ∷ [])
unfolding decode_utf8 next_byte
euro = refl

-- str.encode("utf-8"), for code points below 0x110000
abbrev pub encode_char : ℕ → List ℕ
encode_char c =
    if ltb c 0x80
    then c ∷ []
    else if ltb c 0x800
    then (0xc0 + c / 64) ∷ (0x80 + c % 64) ∷ []
    else if ltb c 0x10000
    then (0xe0 + c / 4096) ∷ (0x80 + c / 64 % 64) ∷ (0x80 + c % 64) ∷ []
    else (0xf0 + c / 262144) ∷ (0x80 + c / 4096 % 64) ∷ (0x80 + c / 64 % 64) ∷ (0x80 + c % 64) ∷ []

unfoldable pub encode_utf8 : Text → List ℕ
encode_utf8 [] = []
encode_utf8 (c ∷ s) = encode_char c ++ encode_utf8 s
