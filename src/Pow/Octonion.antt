-- ===== src/Pow/Octonion.antt =====
-- src/pow/heavy_hash.rs: the octonion product. An i64 is its residue modulo 2 ^ 64, the
-- bits that `wrapping_mul`, `wrapping_add`, `wrapping_sub` and `to_le_bytes` work on.
pub mod Laws
use cryptix_miner_test.Base.{◌+◌, ◌%◌, ◌*◌, ◌-◌, ◌^◌, ℕ, List, get_or, suc, zero}

pub record Octonion : Type 0 where
  pub e0 : ℕ
  pub e1 : ℕ
  pub e2 : ℕ
  pub e3 : ℕ
  pub e4 : ℕ
  pub e5 : ℕ
  pub e6 : ℕ
  pub e7 : ℕ

infixl 60 ◌wrapping_add◌
infixl 60 ◌wrapping_sub◌
infixl 70 ◌wrapping_mul◌
abbrev pub ◌wrapping_add◌ : ℕ → ℕ → ℕ
x wrapping_add y = (x + y) % 2 ^ 64

abbrev pub ◌wrapping_sub◌ : ℕ → ℕ → ℕ
x wrapping_sub y = (x + (2 ^ 64 - y % 2 ^ 64)) % 2 ^ 64

abbrev pub ◌wrapping_mul◌ : ℕ → ℕ → ℕ
x wrapping_mul y = x * y % 2 ^ 64

-- `octonion_multiply`
unfoldable pub octonion_multiply : Octonion → Octonion → Octonion
octonion_multiply a b = record {
  e0 =
      a.e0 wrapping_mul b.e0
      wrapping_sub a.e1 wrapping_mul b.e1
      wrapping_sub a.e2 wrapping_mul b.e2
      wrapping_sub a.e3 wrapping_mul b.e3
      wrapping_sub a.e4 wrapping_mul b.e4
      wrapping_sub a.e5 wrapping_mul b.e5
      wrapping_sub a.e6 wrapping_mul b.e6
      wrapping_sub a.e7 wrapping_mul b.e7;
  e1 =
      a.e0 wrapping_mul b.e1
      wrapping_add a.e1 wrapping_mul b.e0
      wrapping_add a.e2 wrapping_mul b.e3
      wrapping_sub a.e3 wrapping_mul b.e2
      wrapping_add a.e4 wrapping_mul b.e5
      wrapping_sub a.e5 wrapping_mul b.e4
      wrapping_sub a.e6 wrapping_mul b.e7
      wrapping_add a.e7 wrapping_mul b.e6;
  e2 =
      a.e0 wrapping_mul b.e2
      wrapping_sub a.e1 wrapping_mul b.e3
      wrapping_add a.e2 wrapping_mul b.e0
      wrapping_add a.e3 wrapping_mul b.e1
      wrapping_add a.e4 wrapping_mul b.e6
      wrapping_sub a.e5 wrapping_mul b.e7
      wrapping_add a.e6 wrapping_mul b.e4
      wrapping_sub a.e7 wrapping_mul b.e5;
  e3 =
      a.e0 wrapping_mul b.e3
      wrapping_add a.e1 wrapping_mul b.e2
      wrapping_sub a.e2 wrapping_mul b.e1
      wrapping_add a.e3 wrapping_mul b.e0
      wrapping_add a.e4 wrapping_mul b.e7
      wrapping_add a.e5 wrapping_mul b.e6
      wrapping_sub a.e6 wrapping_mul b.e5
      wrapping_add a.e7 wrapping_mul b.e4;
  e4 =
      a.e0 wrapping_mul b.e4
      wrapping_sub a.e1 wrapping_mul b.e5
      wrapping_sub a.e2 wrapping_mul b.e6
      wrapping_sub a.e3 wrapping_mul b.e7
      wrapping_add a.e4 wrapping_mul b.e0
      wrapping_add a.e5 wrapping_mul b.e1
      wrapping_add a.e6 wrapping_mul b.e2
      wrapping_add a.e7 wrapping_mul b.e3;
  e5 =
      a.e0 wrapping_mul b.e5
      wrapping_add a.e1 wrapping_mul b.e4
      wrapping_sub a.e2 wrapping_mul b.e7
      wrapping_add a.e3 wrapping_mul b.e6
      wrapping_sub a.e4 wrapping_mul b.e1
      wrapping_add a.e5 wrapping_mul b.e0
      wrapping_add a.e6 wrapping_mul b.e3
      wrapping_add a.e7 wrapping_mul b.e2;
  e6 =
      a.e0 wrapping_mul b.e6
      wrapping_add a.e1 wrapping_mul b.e7
      wrapping_add a.e2 wrapping_mul b.e4
      wrapping_sub a.e3 wrapping_mul b.e5
      wrapping_sub a.e4 wrapping_mul b.e2
      wrapping_add a.e5 wrapping_mul b.e3
      wrapping_add a.e6 wrapping_mul b.e0
      wrapping_add a.e7 wrapping_mul b.e1;
  e7 =
      a.e0 wrapping_mul b.e7
      wrapping_sub a.e1 wrapping_mul b.e6
      wrapping_add a.e2 wrapping_mul b.e5
      wrapping_add a.e3 wrapping_mul b.e4
      wrapping_sub a.e4 wrapping_mul b.e3
      wrapping_add a.e5 wrapping_mul b.e2
      wrapping_add a.e6 wrapping_mul b.e1
      wrapping_add a.e7 wrapping_mul b.e0;
}

-- The octonion of eight bytes from byte i on, around the end of the 32 bytes.
abbrev pub rotation : List ℕ → ℕ → Octonion
rotation input_hash i = record {
  e0 = get_or input_hash (i % 32) 0;
  e1 = get_or input_hash ((i + 1) % 32) 0;
  e2 = get_or input_hash ((i + 2) % 32) 0;
  e3 = get_or input_hash ((i + 3) % 32) 0;
  e4 = get_or input_hash ((i + 4) % 32) 0;
  e5 = get_or input_hash ((i + 5) % 32) 0;
  e6 = get_or input_hash ((i + 6) % 32) 0;
  e7 = get_or input_hash ((i + 7) % 32) 0;
}

unfoldable pub multiply_loop : ℕ → ℕ → List ℕ → Octonion → Octonion
multiply_loop i zero input_hash oct = oct
multiply_loop i (suc n) input_hash oct =
    multiply_loop (suc i) n input_hash (octonion_multiply oct (rotation input_hash i))

-- `octonion_hash`: the first eight bytes, multiplied from the right by the 24 rotations.
unfoldable pub octonion_hash : List ℕ → Octonion
octonion_hash input_hash = multiply_loop 8 24 input_hash (rotation input_hash 0)
