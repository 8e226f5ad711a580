-- ===== src/Base/Ascii.antt =====
-- The standard library's functions on ASCII texts, as lists of bytes, that split and compare.
use Prim.Native.Nat.{ℕ, zero, suc, ◌+◌, ◌-◌, ◌*◌, ◌/◌, ◌%◌, ◌^◌}
use mathlib.Core.Bool.{Bool, true, false, ◌&&◌, ◌||◌}
use mathlib.Core.List.{List, [], ◌∷◌}
use mathlib.Core.Option.{Option, none, some}
use cryptix_miner_test.Base.Tests.{ltb, leb, ◌==◌, if◌then◌else◌}

-- `a == b`
abbrev pub eq_text : List ℕ → List ℕ → Bool
eq_text [] [] = true
eq_text [] (d ∷ ds) = false
eq_text (c ∷ cs) [] = false
eq_text (c ∷ cs) (d ∷ ds) = (c == d) && eq_text cs ds

-- `text.starts_with(prefix)`
abbrev pub starts_with : List ℕ → List ℕ → Bool
starts_with [] text = true
starts_with (p ∷ ps) [] = false
starts_with (p ∷ ps) (c ∷ cs) = (p == c) && starts_with ps cs

-- `text.contains(part)`, for a part that is not empty.
abbrev pub contains : List ℕ → List ℕ → Bool
contains part [] = false
contains part (c ∷ cs) = starts_with part (c ∷ cs) || contains part cs

-- `text.split_once(c)`
abbrev pub split_once : ℕ → List ℕ → Option (List ℕ × List ℕ)
split_once sep [] = none
split_once sep (c ∷ cs) =
    let rest = split_once sep cs in
    if c == sep
    then some ([], cs)
    else elim rest [ none ↦ none | some (before, after) ↦ some (c ∷ before, after) ]

-- `text.split(c)`: the first part, and the others.
abbrev pub split : ℕ → List ℕ → List ℕ × List (List ℕ)
split sep [] = ([], [])
split sep (c ∷ cs) =
    let (first, others) = split sep cs in
    if c == sep then ([], first ∷ others) else (c ∷ first, others)

-- The digits of `parse::<u16>()` from the left; `none` on a bad digit, or once the value passes
-- a u16.
unfoldable pub digits_u16 : ℕ → List ℕ → Option ℕ
digits_u16 acc [] = some acc
digits_u16 acc (c ∷ cs) =
    let rest = digits_u16 (acc * 10 + (c - b'0')) cs in
    if leb b'0' c && leb c b'9' && ltb (acc * 10 + (c - b'0')) (2 ^ 16) then rest else none

abbrev some_digits_u16 : List ℕ → Option ℕ
some_digits_u16 [] = none
some_digits_u16 (c ∷ cs) = digits_u16 0 (c ∷ cs)

-- `parse::<u16>()`
unfoldable pub parse_u16 : List ℕ → Option ℕ
parse_u16 [] = none
parse_u16 (c ∷ cs) = if c == b'+' then some_digits_u16 cs else some_digits_u16 (c ∷ cs)

-- The decimal digits of a number before those that follow, on fuel.
abbrev decimal_onto : ℕ → ℕ → List ℕ → List ℕ
decimal_onto zero n rest = rest
decimal_onto (suc fuel) n rest =
    let more = decimal_onto fuel (n / 10) ((n % 10 + b'0') ∷ rest) in
    if ltb n 10 then (n + b'0') ∷ rest else more

-- `n.to_string()` for a u16, which has five digits at most.
unfoldable pub decimal_u16 : ℕ → List ℕ
decimal_u16 n = decimal_onto 5 n []

-- ASCII white space, as `char::is_whitespace` has it.
abbrev pub is_whitespace : ℕ → Bool
is_whitespace c = (c == 32) || (leb 9 c && leb c 13)

abbrev pub trim_start : List ℕ → List ℕ
trim_start [] = []
trim_start (c ∷ cs) = let rest = trim_start cs in if is_whitespace c then rest else c ∷ cs

abbrev keep_end : ℕ → List ℕ → List ℕ
keep_end c [] = if is_whitespace c then [] else c ∷ []
keep_end c (d ∷ ds) = c ∷ d ∷ ds

abbrev trim_end : List ℕ → List ℕ
trim_end [] = []
trim_end (c ∷ cs) = keep_end c (trim_end cs)

-- `text.trim()`
unfoldable pub trim : List ℕ → List ℕ
trim text = trim_start (trim_end text)

-- `text.find(c)`
abbrev pub find : ℕ → List ℕ → Option ℕ
find sep [] = none
find sep (c ∷ cs) =
    let rest = find sep cs in
    if c == sep then some 0 else elim rest [ none ↦ none | some i ↦ some (suc i) ]

-- `text.rfind(c)`
abbrev pub rfind : ℕ → List ℕ → Option ℕ
rfind sep [] = none
rfind sep (c ∷ cs) = elim (rfind sep cs) [
  | some i ↦ some (suc i)
  | none ↦ if c == sep then some 0 else none
]

-- `text.split_whitespace().next()` of a trimmed text, or the empty text.
abbrev pub first_word : List ℕ → List ℕ
first_word [] = []
first_word (c ∷ cs) = let rest = first_word cs in if is_whitespace c then [] else c ∷ rest

-- `c.to_ascii_lowercase()`
abbrev pub to_ascii_lowercase : ℕ → ℕ
to_ascii_lowercase c = if leb b'A' c && leb c b'Z' then c + 32 else c

-- `n.to_string()` for a u32, which has ten digits at most.
unfoldable pub decimal_u32 : ℕ → List ℕ
decimal_u32 n = decimal_onto 10 n []

-- `c.is_ascii_alphanumeric()`
abbrev pub is_ascii_alphanumeric : ℕ → Bool
is_ascii_alphanumeric c =
    (leb b'0' c && leb c b'9') || (leb b'A' c && leb c b'Z') || (leb b'a' c && leb c b'z')

-- `c.to_ascii_uppercase()`
abbrev pub to_ascii_uppercase : ℕ → ℕ
to_ascii_uppercase c = if leb b'a' c && leb c b'z' then c - 32 else c
