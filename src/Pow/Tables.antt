-- ===== src/Pow/Tables.antt =====
-- src/pow/heavy_hash.rs: the constants of the heavy hash.
use cryptix_miner_test.Base.{ℕ, List, [], ◌∷◌}

abbrev pub sel_product : ℕ
sel_product = 0

abbrev pub sel_hash : ℕ
sel_hash = 1

abbrev pub sel_nibble : ℕ
sel_nibble = 2

abbrev pub sel_before_oct : ℕ
sel_before_oct = 3

abbrev pub sbox_source_selectors : List ℕ
sbox_source_selectors =
    sel_product ∷ sel_hash ∷ sel_nibble ∷ sel_hash ∷ sel_before_oct ∷ sel_hash ∷ sel_product
    ∷ sel_hash ∷ sel_before_oct ∷ sel_hash ∷ sel_nibble ∷ sel_hash ∷ sel_before_oct ∷ sel_hash
    ∷ sel_product ∷ sel_hash ∷ []

abbrev pub sbox_value_selectors : List ℕ
sbox_value_selectors =
    sel_product ∷ sel_hash ∷ sel_before_oct ∷ sel_nibble ∷ sel_product ∷ sel_hash ∷ sel_before_oct
    ∷ sel_nibble ∷ sel_product ∷ sel_hash ∷ sel_before_oct ∷ sel_nibble ∷ sel_product ∷ sel_hash
    ∷ sel_before_oct ∷ sel_nibble ∷ []

abbrev pub sbox_value_multipliers : List ℕ
sbox_value_multipliers =
    0x03 ∷ 0x05 ∷ 0x07 ∷ 0x0F ∷ 0x11 ∷ 0x13 ∷ 0x17 ∷ 0x19 ∷ 0x1D ∷ 0x1F ∷ 0x23 ∷ 0x29 ∷ 0x2F ∷ 0x31
    ∷ 0x37 ∷ 0x3F ∷ []

abbrev pub sbox_value_adders : List ℕ
sbox_value_adders =
    0xAA ∷ 0xBB ∷ 0xCC ∷ 0xDD ∷ 0xEE ∷ 0xFF ∷ 0x11 ∷ 0x22 ∷ 0x33 ∷ 0x44 ∷ 0x55 ∷ 0x66 ∷ 0x77 ∷ 0x88
    ∷ 0x99 ∷ 0xAA ∷ []

abbrev pub after_comp_lut : List ℕ
after_comp_lut =
    0x75 ∷ 0x7C ∷ 0xEB ∷ 0x87 ∷ 0x24 ∷ 0xE7 ∷ 0x3D ∷ 0x07 ∷ 0x48 ∷ 0x32 ∷ 0xB2 ∷ 0xEE ∷ 0xEF ∷ 0x97
    ∷ 0xC2 ∷ 0x2B ∷ 0xE9 ∷ 0x4B ∷ 0xE2 ∷ 0xAF ∷ 0x2F ∷ 0xF3 ∷ 0x19 ∷ 0xE7 ∷ 0x83 ∷ 0x94 ∷ 0xB9
    ∷ 0x4B ∷ 0x09 ∷ 0x78 ∷ 0x95 ∷ 0x69 ∷ 0x55 ∷ 0xF7 ∷ 0xF7 ∷ 0x9F ∷ 0x67 ∷ 0x01 ∷ 0x4A ∷ 0xCE
    ∷ 0xD1 ∷ 0x57 ∷ 0x64 ∷ 0x03 ∷ 0xE1 ∷ 0x72 ∷ 0x8D ∷ 0xCD ∷ 0x67 ∷ 0x41 ∷ 0x6A ∷ 0x10 ∷ 0xC0
    ∷ 0x55 ∷ 0x42 ∷ 0xBD ∷ 0x28 ∷ 0x26 ∷ 0xEE ∷ 0x75 ∷ 0x51 ∷ 0x2B ∷ 0x7B ∷ 0xE6 ∷ 0xE0 ∷ 0x38
    ∷ 0xD7 ∷ 0x1D ∷ 0x48 ∷ 0x7D ∷ 0x6C ∷ 0x17 ∷ 0x53 ∷ 0xFA ∷ 0x7A ∷ 0x89 ∷ 0x09 ∷ 0x8A ∷ 0x43
    ∷ 0x7B ∷ 0x3B ∷ 0xEE ∷ 0x9F ∷ 0x09 ∷ 0xD9 ∷ 0x07 ∷ 0xD6 ∷ 0x66 ∷ 0x23 ∷ 0x13 ∷ 0x82 ∷ 0x5B
    ∷ 0x4B ∷ 0x6B ∷ 0xC2 ∷ 0xAF ∷ 0xFD ∷ 0xD8 ∷ 0x92 ∷ 0x0E ∷ 0x40 ∷ 0x89 ∷ 0x32 ∷ 0xEE ∷ 0x14
    ∷ 0x9A ∷ 0xA4 ∷ 0xAC ∷ 0xEC ∷ 0xF9 ∷ 0x9D ∷ 0x3A ∷ 0xBC ∷ 0x51 ∷ 0x05 ∷ 0x6A ∷ 0x11 ∷ 0xA7
    ∷ 0xAC ∷ 0x1B ∷ 0x71 ∷ 0x40 ∷ 0x0D ∷ 0x05 ∷ 0xD0 ∷ 0x61 ∷ 0x05 ∷ 0xE2 ∷ 0x5A ∷ 0x1D ∷ 0xCA
    ∷ 0x4C ∷ 0x56 ∷ 0x40 ∷ 0x2A ∷ 0x49 ∷ 0x67 ∷ 0x61 ∷ 0x69 ∷ 0x21 ∷ 0x80 ∷ 0x85 ∷ 0x59 ∷ 0xB8
    ∷ 0x2C ∷ 0xD0 ∷ 0x20 ∷ 0xDA ∷ 0x88 ∷ 0xAC ∷ 0xCC ∷ 0xD1 ∷ 0x70 ∷ 0x76 ∷ 0x98 ∷ 0x7F ∷ 0x7C
    ∷ 0x55 ∷ 0xD0 ∷ 0xD6 ∷ 0x2B ∷ 0xA5 ∷ 0xB7 ∷ 0x03 ∷ 0x9E ∷ 0x37 ∷ 0x9B ∷ 0xB9 ∷ 0xF1 ∷ 0xE8
    ∷ 0x1F ∷ 0xE0 ∷ 0x42 ∷ 0x6B ∷ 0x62 ∷ 0x63 ∷ 0xB7 ∷ 0xDC ∷ 0x8E ∷ 0xCC ∷ 0x6C ∷ 0xB7 ∷ 0x76
    ∷ 0x27 ∷ 0xC1 ∷ 0xEC ∷ 0x72 ∷ 0x17 ∷ 0xCE ∷ 0x76 ∷ 0x65 ∷ 0x8C ∷ 0x9F ∷ 0x16 ∷ 0xDB ∷ 0xB2
    ∷ 0x5F ∷ 0x7F ∷ 0x14 ∷ 0x5A ∷ 0x42 ∷ 0x89 ∷ 0xEC ∷ 0x1D ∷ 0xC5 ∷ 0xC9 ∷ 0xA0 ∷ 0x30 ∷ 0xDD
    ∷ 0x3C ∷ 0xDC ∷ 0x7B ∷ 0x8A ∷ 0x47 ∷ 0x3E ∷ 0xB5 ∷ 0xEA ∷ 0xA9 ∷ 0xA9 ∷ 0x6A ∷ 0x89 ∷ 0x65
    ∷ 0x4D ∷ 0x3A ∷ 0xC8 ∷ 0xAD ∷ 0xBB ∷ 0xAD ∷ 0xA0 ∷ 0xE5 ∷ 0xB8 ∷ 0xF6 ∷ 0xCD ∷ 0x08 ∷ 0xA3
    ∷ 0xE8 ∷ 0xA0 ∷ 0x5E ∷ 0x18 ∷ 0xA6 ∷ 0x65 ∷ 0x27 ∷ 0x26 ∷ 0x5C ∷ 0x21 ∷ 0xA8 ∷ 0xF4 ∷ 0x3C
    ∷ 0xCA ∷ 0x95 ∷ 0x15 ∷ 0xFC ∷ 0x9C ∷ 0x1B ∷ 0x9A ∷ 0x0B ∷ []
