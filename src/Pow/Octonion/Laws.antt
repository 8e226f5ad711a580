-- ===== src/Pow/Octonion/Laws.antt =====
-- src/pow/heavy_hash.rs: laws of the octonion product.
use cryptix_miner_test.Base.{◌<◌, ◌^◌, arith, ◌≡◌}
use cryptix_miner_test.Pow.Octonion.{Octonion, octonion_multiply}

abbrev pub IsWordOctonion : Octonion → Type 0
IsWordOctonion o =
    (o.e0 < 2 ^ 64)
    × (o.e1 < 2 ^ 64)
    × (o.e2 < 2 ^ 64)
    × (o.e3 < 2 ^ 64)
    × (o.e4 < 2 ^ 64)
    × (o.e5 < 2 ^ 64)
    × (o.e6 < 2 ^ 64)
    × (o.e7 < 2 ^ 64)

abbrev pub one : Octonion
one = record { e0 = 1; e1 = 0; e2 = 0; e3 = 0; e4 = 0; e5 = 0; e6 = 0; e7 = 0 }

pub octonion_multiply-one : (a : Octonion) → IsWordOctonion a → octonion_multiply a one ≡ a
unfolding octonion_multiply
octonion_multiply-one a w = ground arith

-- On octonions of 64-bit components, the octonion 1 is a unit of the product on both sides.
pub octonion_multiply-unit :
    (a : Octonion)
    → IsWordOctonion a
    → (octonion_multiply a one ≡ a) × (octonion_multiply one a ≡ a)
unfolding octonion_multiply
octonion_multiply-unit a w = (octonion_multiply-one a w, ground arith)
