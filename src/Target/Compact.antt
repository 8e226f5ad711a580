-- ===== src/Target/Compact.antt =====
-- The compact target decoder against the number that it is meant to give.
use cryptix_miner_test.Base.{ℕ, if◌then◌else◌, ◌^◌, leb, ◌*◌, ◌/◌, ◌-◌, ltb, ◌%◌}
use cryptix_miner_test.Target.{ℕ}

-- The number that a compact target means: a mantissa of three bytes and an exponent of one, in
-- base 256, the exponent counting the mantissa's own three bytes; a mantissa whose sign bit is
-- set means zero.
abbrev pub compact_value : ℕ → ℕ → ℕ
compact_value mantissa exponent =
    if ltb 0x7FFFFF mantissa
    then 0
    else if leb exponent 3
    then mantissa / 256 ^ (3 - exponent)
    else mantissa * 256 ^ (exponent - 3) % 2 ^ 256

-- What the code computes, with its test of the sign after the shift.
tested_value : ℕ → ℕ → ℕ
tested_value mantissa exponent =
    if leb exponent 3
    then (let m = mantissa / 256 ^ (3 - exponent) in if ltb 0x7FFFFF m then 0 else m)
    else if ltb 0x7FFFFF mantissa
    then 0
    else mantissa * 256 ^ (exponent - 3) % 2 ^ 256
