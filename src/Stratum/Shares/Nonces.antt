-- ===== src/Stratum/Shares/Nonces.antt =====
-- src/client/stratum.rs: the text of the nonce in a share.
use cryptix_miner_test.Base.{
  ◌%◌, ◌*◌, ◌+◌, ◌++◌, ◌-◌, ◌/◌, ◌<◌, List, Option, [], ◌^◌, ap, arith, if◌then◌else◌, length, ltb,
  refl, some, suc, zero, ℕ, ◌∙◌, ◌∷◌, ◌≡◌, length-append, none, subst, ℕ_discrete, ◌≢◌,
}
use cryptix_miner_test.Base.Text.{hex_text, hex_digit, hex_digits, some_digits, from_str_radix_16}

abbrev hex_digit_of : ℕ → ℕ
hex_digit_of d = if ltb d 10 then d + b'0' else d - 10 + b'a'

read_digit : (d : ℕ) → d < 16 → hex_digit (hex_digit_of d) ≡ some d
unfolding hex_digit
read_digit d lt = ground arith

hex_digits-append :
    (acc : ℕ) (cs : List ℕ) (c d v : ℕ)
    → hex_digits acc cs ≡ some v
    → hex_digit c ≡ some d
    → v * 16 + d < 2 ^ 64
    → hex_digits acc (cs ++ (c ∷ [])) ≡ some (v * 16 + d)
unfolding hex_digits
hex_digits-append acc [] c d v e e' lt = rw (hex_digits, e') (ground (arith, e))
hex_digits-append acc (x ∷ cs) c d v e e' lt =
    go (hex_digit x) refl e (λ a h. hex_digits-append a cs c d v h e' lt)
  where
    first : List ℕ → Option ℕ → Option ℕ
    first rest o = elim o [
      | none ↦ none
      | some y ↦ if ltb (acc * 16 + y) (2 ^ 64) then hex_digits (acc * 16 + y) rest else none
    ]

    go :
        (o : Option ℕ)
        → hex_digit x ≡ o
        → first cs o ≡ some v
        → ((a : ℕ) → hex_digits a cs ≡ some v → hex_digits a (cs ++ (c ∷ [])) ≡ some (v * 16 + d))
        → hex_digits acc ((x ∷ cs) ++ (c ∷ [])) ≡ some (v * 16 + d)
    go none eq h later = absurd (ground (arith, h))
    go (some y) eq h later = rw (hex_digits, eq) (ground (arith, h, later (acc * 16 + y)))

read_back :
    (digits n : ℕ) → n < 16 ^ digits → n < 2 ^ 64 → hex_digits 0 (hex_text digits n) ≡ some n
unfolding hex_text
read_back zero n lt word = unfold hex_digits in ap some (omega arith)
read_back (suc k) n lt word =
    hex_digits-append 0 (hex_text k (n / 16)) _ (n % 16) (n / 16)
      (read_back k (n / 16) (omega arith) (omega arith)) (read_digit (n % 16) (omega arith))
      (omega arith)
    ∙ ap some (omega arith)

no_plus : (cs : List ℕ) (v : ℕ) → hex_digits 0 (b'+' ∷ cs) ≢ some v
unfolding hex_digits hex_digit
no_plus cs v e = ground (arith, e)

length-hex_text : (digits n : ℕ) → length (hex_text digits n) ≡ digits
unfolding hex_text
length-hex_text zero n = refl
length-hex_text (suc k) n =
    length-append (hex_text k (n / 16)) _ ∙ omega (arith, length-hex_text k (n / 16))

signless :
    (cs : List ℕ) (v : ℕ) → 0 < length cs → hex_digits 0 cs ≡ some v → from_str_radix_16 cs ≡ some v
unfolding from_str_radix_16 some_digits hex_digits
signless [] v pos e = absurd (omega arith)
signless (c ∷ cs) v pos e = elim (ℕ_discrete c b'+') [
  | yes plus ↦ absurd (no_plus cs v (subst (λ (x : ℕ). hex_digits 0 (x ∷ cs) ≡ some v) plus e))
  | no other ↦ ground (arith, other, e)
]

-- `{:016x}` of a u64 nonce has sixteen digits, and `u64::from_str_radix` gets the nonce back.
pub hex_text-from_str_radix_16 :
    (nonce : ℕ)
    → nonce < 2 ^ 64
    → (length (hex_text 16 nonce) ≡ 16) × (from_str_radix_16 (hex_text 16 nonce) ≡ some nonce)
hex_text-from_str_radix_16 nonce lt = (
  length-hex_text 16 nonce,
  signless _ nonce (omega (arith, length-hex_text 16 nonce)) (read_back 16 nonce lt lt),
)
