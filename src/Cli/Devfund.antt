-- ===== src/Cli/Devfund.antt =====
-- src/cli.rs: the percentage of the devfund, from the option's text to the templates that are asked
-- for in its name.
use cryptix_miner_test.Base.{
  ◌%◌, ◌+◌, ◌/◌, ◌<◌, List, [], arith, if◌then◌else◌, ltb, some, ℕ, ◌∷◌, ◌≡◌, ◌++◌, dec_lt, false,
  length, true, ap, ◌∙◌, ap₂, refl,
}
use cryptix_miner_test.Base.Ascii.{split, parse_u16, digits_u16, decimal_u16}
use cryptix_miner_test.Cli.{percent_of_split, parse_devfund_percent, percent_of_parts}

percent_of_parts-lt :
    (prefix postfix : List ℕ) (p : ℕ) → percent_of_parts prefix postfix ≡ some p → p < 10_000
unfolding percent_of_parts
percent_of_parts-lt prefix postfix p e = ground (arith, e)

percent_of_split-lt :
    (parts : List ℕ × List (List ℕ)) (p : ℕ) → percent_of_split parts ≡ some p → p < 10_000
unfolding percent_of_split
percent_of_split-lt (prefix, []) p e = percent_of_parts-lt prefix (b'0' ∷ []) p e
percent_of_split-lt (prefix, postfix ∷ []) p e = percent_of_parts-lt prefix postfix p e
percent_of_split-lt (prefix, postfix ∷ third ∷ more) p e = ground (arith, e)

-- A percentage that the option takes is at most 99.99, in hundredths.
pub parse_devfund_percent-lt : (s : List ℕ) (p : ℕ) → parse_devfund_percent s ≡ some p → p < 10_000
unfolding parse_devfund_percent
parse_devfund_percent-lt s = percent_of_split-lt (split b'.' s)

-- The decimal digits of a number below 100.
abbrev two_digits : ℕ → List ℕ
two_digits n = if ltb n 10 then (n + b'0') ∷ [] else (n / 10 + b'0') ∷ (n % 10 + b'0') ∷ []

decimal_u16-two_digits : (n : ℕ) → n < 100 → decimal_u16 n ≡ two_digits n
unfolding decimal_u16
decimal_u16-two_digits n lt = ground (arith, lt)

parse_u16-two_digits : (n : ℕ) → n < 100 → parse_u16 (two_digits n) ≡ some n
unfolding parse_u16 digits_u16
parse_u16-two_digits n lt = ground (arith, lt)

split-digit :
    (d : ℕ) (rest : List ℕ)
    → split b'.' ((d + b'0') ∷ rest) ≡ ((d + b'0') ∷ (split b'.' rest).0, (split b'.' rest).1)
split-digit d rest = ground arith

split-two_digits :
    (n : ℕ) (rest : List ℕ)
    → split b'.' (two_digits n ++ rest) ≡ (two_digits n ++ (split b'.' rest).0, (split b'.' rest).1)
split-two_digits n rest = elim (dec_lt n 10) [
  | yes small ↦ rw (small_test small) (split-digit n rest)
  | no large ↦ rw (large_test large) (
      split-digit (n / 10) ((n % 10 + b'0') ∷ rest)
      ∙ ap (λ (t : List ℕ × List (List ℕ)). ((n / 10 + b'0') ∷ t.0, t.1))
          (split-digit (n % 10) rest))
]
  where
    large_test : ¬ n < 10 → ltb n 10 ≡ false
    large_test ge = ground (arith, ge)

    small_test : n < 10 → ltb n 10 ≡ true
    small_test lt = ground (arith, lt)

length-two_digits : (n : ℕ) → ltb 2 (length (two_digits n)) ≡ false
length-two_digits n = ground arith

-- How `main` writes the percentage: `{}.{}` of the whole percents and the hundredths.
abbrev pub percent_text : ℕ → List ℕ
percent_text p = decimal_u16 (p / 100) ++ (b'.' ∷ decimal_u16 (p % 100))

parts_lem :
    (p : ℕ) → p < 10_000 → percent_of_parts (two_digits (p / 100)) (two_digits (p % 100)) ≡ some p
unfolding percent_of_parts
parts_lem p lt =
    rw
      (
        percent_of_parts,
        length-two_digits (p / 100),
        length-two_digits (p % 100),
        parse_u16-two_digits (p % 100) (omega arith),
        parse_u16-two_digits (p / 100) (omega arith),
      )
      (ground (arith, lt))

two_digits-split : (n : ℕ) → split b'.' (two_digits n) ≡ (two_digits n, [])
two_digits-split n = elim (dec_lt n 10) [
  | yes small ↦ rw (small_test small) (split-digit n [])
  | no large ↦ rw (large_test large) (
      split-digit (n / 10) ((n % 10 + b'0') ∷ [])
      ∙ ap (λ (t : List ℕ × List (List ℕ)). ((n / 10 + b'0') ∷ t.0, t.1)) (split-digit (n % 10) []))
]
  where
    large_test : ¬ n < 10 → ltb n 10 ≡ false
    large_test ge = ground (arith, ge)

    small_test : n < 10 → ltb n 10 ≡ true
    small_test lt = ground (arith, lt)

nil_append : (xs : List ℕ) → xs ++ [] ≡ xs
nil_append [] = refl
nil_append (x ∷ xs) = ap (λ (t : List ℕ). x ∷ t) (nil_append xs)

split-percent_text :
    (p : ℕ)
    → p < 10_000
    → split b'.' (percent_text p) ≡ (two_digits (p / 100), two_digits (p % 100) ∷ [])
split-percent_text p lt =
    ap₂ (λ (a b : List ℕ). split b'.' (a ++ (b'.' ∷ b)))
      (decimal_u16-two_digits (p / 100) (omega arith))
      (decimal_u16-two_digits (p % 100) (omega arith))
    ∙ split-two_digits (p / 100) (b'.' ∷ two_digits (p % 100))
    ∙ ap (λ (t : List ℕ × List (List ℕ)). (two_digits (p / 100) ++ [], t.0 ∷ t.1))
        (two_digits-split (p % 100))
    ∙ ap (λ (t : List ℕ). (t, two_digits (p % 100) ∷ [])) (nil_append (two_digits (p / 100)))

-- The option takes back the text that `main` writes for a percentage below 100: the value that it
-- was, in hundredths.
pub parse_devfund_percent-percent_text :
    (p : ℕ) → p < 10_000 → parse_devfund_percent (percent_text p) ≡ some p
unfolding parse_devfund_percent percent_of_split
parse_devfund_percent-percent_text p lt =
    ap percent_of_split (split-percent_text p lt) ∙ parts_lem p lt
