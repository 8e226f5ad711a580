-- ===== src/Base/Text.antt =====
-- Texts as lists of bytes, and the standard library's functions on them that the program calls.
use Prim.Native.Nat.{ℕ, zero, suc, ◌+◌, ◌-◌, ◌*◌, ◌/◌, ◌%◌, ◌^◌}
use Prim.Native.Char.{code}
use Prim.Native.String.{String}
use mathlib.Core.Bool.{◌&&◌}
use mathlib.Core.List.{List, [], ◌∷◌, ◌++◌}
use mathlib.Core.Option.{Option, none, some}
use cryptix_miner_test.Base.Tests.{ltb, leb, ◌==◌, if◌then◌else◌}

-- The bytes of an ASCII text.
abbrev pub codes : String → List ℕ
codes String.[] = []
codes (String.◌∷◌ c s) = code c ∷ codes s

-- `char::to_digit(16)` of an ASCII character.
unfoldable pub hex_digit : ℕ → Option ℕ
hex_digit c =
    if leb b'0' c && leb c b'9'
    then some (c - b'0')
    else if leb b'a' c && leb c b'f'
    then some (c - b'a' + 10)
    else if leb b'A' c && leb c b'F'
    then some (c - b'A' + 10)
    else none

-- The digits of `from_str_radix` from the left; `none` on a bad digit, or once the value passes
-- a u64.
unfoldable pub hex_digits : ℕ → List ℕ → Option ℕ
hex_digits acc [] = some acc
hex_digits acc (c ∷ cs) = elim (hex_digit c) [
  | none ↦ none
  | some d ↦ if ltb (acc * 16 + d) (2 ^ 64) then hex_digits (acc * 16 + d) cs else none
]

-- The digits behind an optional sign; a text with no digit is refused.
unfoldable pub some_digits : List ℕ → Option ℕ
some_digits [] = none
some_digits (c ∷ cs) = hex_digits 0 (c ∷ cs)

-- `u64::from_str_radix(s, 16)`
unfoldable pub from_str_radix_16 : List ℕ → Option ℕ
from_str_radix_16 [] = none
from_str_radix_16 (c ∷ cs) = if c == b'+' then some_digits cs else some_digits (c ∷ cs)

-- `s.strip_prefix` for a prefix of two characters.
unfoldable pub strip_prefix : ℕ → ℕ → List ℕ → Option (List ℕ)
strip_prefix a b [] = none
strip_prefix a b (c ∷ []) = none
strip_prefix a b (c ∷ d ∷ cs) = if (c == a) && (d == b) then some cs else none

-- `format!("{:016x}", n)` and the like: the last digits of a number, padded with zeros.
unfoldable pub hex_text : ℕ → ℕ → List ℕ
hex_text zero n = []
hex_text (suc digits) n =
    hex_text digits (n / 16)
    ++ ((if ltb (n % 16) 10 then n % 16 + b'0' else n % 16 - 10 + b'a') ∷ [])
