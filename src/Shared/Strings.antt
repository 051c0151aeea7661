-- ===== src/Shared/Strings.antt =====
-- What the program uses of Go's `strings` and `strconv`, on byte lists.
use Prim.Native.Nat.{ℕ, zero, suc, ◌+◌, ◌-◌, ◌*◌, ◌/◌, ◌%◌, ◌^◌}
use Prim.Native.String.{String}
use mathlib.Core.Bool.{Bool, ◌&&◌, ◌||◌}
use mathlib.Core.Option.{Option, none, some}
use mathlib.Core.List.{List, [], ◌∷◌, ◌++◌}
use synthetics_operator.Shared.Tests.{leb, ltb, if◌then◌else◌}
use synthetics_operator.Shared.Keys.{◌==◌, nat_eq, Bytes}
use synthetics_operator.Shared.Lists.{length}
use synthetics_operator.Shared.Int.{ℤ, pos, sub_ℕ}
use mathlib.Core.List.{reverse}

-- unicode.IsSpace, by the length of the UTF-8 sequence.
abbrev pub is_ascii_space : ℕ → Bool
is_ascii_space c = leb 9 c && leb c 13 || c == 32

abbrev pub is_space_2 : ℕ → ℕ → Bool
is_space_2 a b = a == 0xc2 && (b == 0x85 || b == 0xa0)

abbrev pub is_space_3 : ℕ → ℕ → ℕ → Bool
is_space_3 a b c =
    a == 0xe1 && b == 0x9a && c == 0x80
    || a == 0xe2 && b == 0x80 && (leb 0x80 c && leb c 0x8a || c == 0xa8 || c == 0xa9 || c == 0xaf)
    || a == 0xe2 && b == 0x81 && c == 0x9f
    || a == 0xe3 && b == 0x80 && c == 0x80

-- The UTF-8 width of the white space that the bytes begin with: 0 if there is none.
unfoldable pub space_width : Bytes → ℕ
space_width [] = 0
space_width (a ∷ []) = if is_ascii_space a then 1 else 0
space_width (a ∷ b ∷ []) = if is_ascii_space a then 1 else if is_space_2 a b then 2 else 0
space_width (a ∷ b ∷ c ∷ _) =
    if is_ascii_space a then 1 else if is_space_2 a b then 2 else if is_space_3 a b c then 3 else 0

-- The same for the end of a text, given in reverse.
unfoldable pub space_width_end : Bytes → ℕ
space_width_end [] = 0
space_width_end (a ∷ []) = if is_ascii_space a then 1 else 0
space_width_end (b ∷ a ∷ []) = if is_ascii_space b then 1 else if is_space_2 a b then 2 else 0
space_width_end (c ∷ b ∷ a ∷ _) =
    if is_ascii_space c then 1 else if is_space_2 b c then 2 else if is_space_3 a b c then 3 else 0

abbrev pub drop : ℕ → Bytes → Bytes
drop zero s = s
drop (suc n) [] = []
drop (suc n) (c ∷ s) = drop n s

abbrev pub take : ℕ → Bytes → Bytes
take zero s = []
take (suc n) [] = []
take (suc n) (c ∷ s) = c ∷ take n s

-- Drops white space from the front; each round takes at least one byte, so the length is enough
-- fuel.
unfoldable pub drop_space : ℕ → (Bytes → ℕ) → Bytes → Bytes
drop_space zero width s = s
drop_space (suc fuel) width s =
    let rest = drop_space fuel width (drop (width s) s) in if width s == 0 then s else rest

-- strings.TrimSpace
unfoldable pub trim_space : Bytes → Bytes
trim_space s =
    let front = drop_space (length s) space_width s in
    reverse (drop_space (length front) space_width_end (reverse front))

-- strings.TrimLeft(s, c), strings.Trim(s, c) for one byte
unfoldable pub trim_left : ℕ → Bytes → Bytes
trim_left sep [] = []
trim_left sep (c ∷ s) = let rest = trim_left sep s in if c == sep then rest else c ∷ s

unfoldable pub trim : ℕ → Bytes → Bytes
trim sep s = reverse (trim_left sep (reverse (trim_left sep s)))

abbrev pub cons_head : ℕ → List Bytes → List Bytes
cons_head c [] = (c ∷ []) ∷ []
cons_head c (w ∷ ws) = (c ∷ w) ∷ ws

-- strings.Split(s, sep) for one byte
unfoldable pub split : ℕ → Bytes → List Bytes
split sep [] = [] ∷ []
split sep (c ∷ s) = let rest = split sep s in if c == sep then [] ∷ rest else cons_head c rest

abbrev pub is_digit : ℕ → Bool
is_digit c = leb b'0' c && leb c b'9'

-- The value of a run of decimal digits; none at any other byte.
unfoldable pub digits : ℕ → Bytes → Option ℕ
digits n [] = some n
digits n (c ∷ s) = let rest = digits (n * 10 + (c - b'0')) s in if is_digit c then rest else none

abbrev pub at_most : ℕ → Option ℕ → Option ℕ
at_most bound none = none
at_most bound (some n) = if leb n bound then some n else none

abbrev pub unsigned : ℕ → Bytes → Option ℕ
unsigned bound [] = none
unsigned bound (c ∷ s) = at_most bound (digits 0 (c ∷ s))

abbrev pub positive : Option ℕ → Option ℤ
positive none = none
positive (some n) = some (pos n)

abbrev pub negative : Option ℕ → Option ℤ
negative none = none
negative (some n) = some (sub_ℕ 0 n)

-- strconv.Atoi with a 64-bit int
unfoldable pub atoi : Bytes → Option ℤ
atoi [] = none
atoi (c ∷ s) =
    if c == b'-'
    then negative (unsigned (2 ^ 63) s)
    else if c == b'+'
    then positive (unsigned (2 ^ 63 - 1) s)
    else positive (unsigned (2 ^ 63 - 1) (c ∷ s))

-- The digits of a number that is below 10 ^ fuel.
unfoldable pub decimal_digits : ℕ → ℕ → Bytes
decimal_digits zero n = []
decimal_digits (suc fuel) n =
    let more = decimal_digits fuel (n / 10) ++ (b'0' + n % 10) ∷ [] in
    if ltb n 10 then (b'0' + n) ∷ [] else more

-- strconv.Itoa and %d, of a number that is not negative: it is below 10 ^ (n + 1).
abbrev pub decimal : ℕ → Bytes
decimal n = decimal_digits (suc n) n

-- Go's + of strings.
unfoldable pub append_text : String → String → String
append_text String.[] t = t
append_text (String.◌∷◌ c s) t = String.◌∷◌ c (append_text s t)
