-- ===== src/Target/Shift.antt =====
-- src/target.rs: the left shift.
use native.Mathlib.Nat.{div-lt_iff_lt-mul}
use cryptix_miner_test.Base.{
  ℕ, zero, suc, ◌+◌, ◌-◌, ◌*◌, ◌/◌, ◌%◌, ◌^◌, ◌<◌, ◌≤◌, ◌≡◌, arith, ap, dec_lt, lt→ltb, sym, ◌∙◌,
  Bool, if◌then◌else◌, ltb, ◌&&◌, shl64, true, false,
}
use cryptix_miner_test.Base.Pow.{shifted, pow-pos, pow-sub, pow-add}
use cryptix_miner_test.Target.{Uint256, IsWords, zeros, add_word, shl_round, shl_loop, shl}
use cryptix_miner_test.Target.Value.{value}

-- What `w << k` keeps in the word and what it carries out of it, where p = 2 ^ k and
-- q = 2 ^ (64 - k): the kept part is a multiple of p, so a carry below p can be added to it.
record Halves (p w kept carried : ℕ) : Type 0 where
  whole : w * p ≡ kept + 2 ^ 64 * carried
  room : kept + p ≤ 2 ^ 64
  small : carried < p

halves :
    (p q w : ℕ) → p * q ≡ 2 ^ 64 → 0 < p → 0 < q → w < 2 ^ 64 → Halves p w (w * p % 2 ^ 64) (w / q)
halves p q w e p_pos q_pos h =
    let s = shifted p q w e p_pos q_pos in
    record {
      whole = omega (arith, s.whole, s.kept);
      room = omega (arith, s.room, s.kept);
      small = (div-lt_iff_lt-mul q_pos).1 (omega (arith, e));
    }

module _ (u : Uint256) (k : ℕ) where
  abbrev Halved : ℕ → Type 0
  Halved w = Halves (2 ^ k) w (w * 2 ^ k % 2 ^ 64) (w / 2 ^ (64 - k))

  -- The loop at each word shift, for a bit shift k that carries.
  module _ (h0 : Halved u.w0) (h1 : Halved u.w1) (h2 : Halved u.w2) (h3 : Halved u.w3) (pos : 0 < k)
      (lt : k < 64) where
    loop_by_zero : value (shl_loop 0 k u) ≡ value u * 2 ^ k % 2 ^ 256
    unfolding shl_loop
    loop_by_zero = rw (lt→ltb k 64 lt, lt→ltb 0 k pos) (omega arith)

    loop_by_one : value (shl_loop 1 k u) ≡ 2 ^ 64 * (value u * 2 ^ k) % 2 ^ 256
    unfolding shl_loop
    loop_by_one = rw (lt→ltb k 64 lt, lt→ltb 0 k pos) (omega arith)

    loop_by_two : value (shl_loop 2 k u) ≡ 2 ^ 128 * (value u * 2 ^ k) % 2 ^ 256
    unfolding shl_loop
    loop_by_two = rw (lt→ltb k 64 lt, lt→ltb 0 k pos) (omega arith)

    loop_by_three : value (shl_loop 3 k u) ≡ 2 ^ 192 * (value u * 2 ^ k) % 2 ^ 256
    unfolding shl_loop
    loop_by_three = rw (lt→ltb k 64 lt, lt→ltb 0 k pos) (omega arith)

loop_beyond : (u : Uint256) (j k : ℕ) → 4 ≤ j → shl_loop j k u ≡ zeros
unfolding shl_loop
loop_beyond u j k h = ground arith

-- A shift by a multiple of 64 moves whole words.
whole_words :
    (u : Uint256)
    → IsWords u
    → (value (shl_loop 0 0 u) ≡ value u % 2 ^ 256)
      × (value (shl_loop 1 0 u) ≡ 2 ^ 64 * value u % 2 ^ 256)
      × (value (shl_loop 2 0 u) ≡ 2 ^ 128 * value u % 2 ^ 256)
      × (value (shl_loop 3 0 u) ≡ 2 ^ 192 * value u % 2 ^ 256)
unfolding shl_loop
whole_words u h = (omega arith, omega arith, omega arith, omega arith)

value-shl_loop_words :
    (u : Uint256) (j k : ℕ)
    → IsWords u
    → 0 < k
    → k < 64
    → j < 4
    → value (shl_loop j k u) ≡ 2 ^ (64 * j) * (value u * 2 ^ k) % 2 ^ 256
value-shl_loop_words u j k h pos lt below = go j below
  where
    halved : (w : ℕ) → w < 2 ^ 64 → Halved u k w
    halved w =
        halves (2 ^ k) (2 ^ (64 - k)) w (pow-sub k 64 (omega arith)) (pow-pos k) (pow-pos (64 - k))

    go : (j : ℕ) → j < 4 → value (shl_loop j k u) ≡ 2 ^ (64 * j) * (value u * 2 ^ k) % 2 ^ 256
    go zero b =
        rw (loop_by_zero u k (halved _ h.0) (halved _ h.1) (halved _ h.2) (halved _ h.3) pos lt)
          (omega arith)
    go (suc zero) b =
        loop_by_one u k (halved _ h.0) (halved _ h.1) (halved _ h.2) (halved _ h.3) pos lt
    go (suc (suc zero)) b =
        loop_by_two u k (halved _ h.0) (halved _ h.1) (halved _ h.2) (halved _ h.3) pos lt
    go (suc (suc (suc zero))) b =
        loop_by_three u k (halved _ h.0) (halved _ h.1) (halved _ h.2) (halved _ h.3) pos lt
    go (suc (suc (suc (suc j)))) b = absurd (omega arith)

value-shl_loop_whole :
    (u : Uint256) (j : ℕ)
    → IsWords u
    → j < 4
    → value (shl_loop j 0 u) ≡ 2 ^ (64 * j) * (value u * 2 ^ 0) % 2 ^ 256
value-shl_loop_whole u zero h b = omega (arith, whole_words u h)
value-shl_loop_whole u (suc zero) h b = omega (arith, whole_words u h)
value-shl_loop_whole u (suc (suc zero)) h b = omega (arith, whole_words u h)
value-shl_loop_whole u (suc (suc (suc zero))) h b = omega (arith, whole_words u h)
value-shl_loop_whole u (suc (suc (suc (suc j)))) h b = absurd (omega arith)

value-shl_loop_beyond :
    (u : Uint256) (j k : ℕ)
    → 4 ≤ j
    → value (shl_loop j k u) ≡ 2 ^ (64 * j) * (value u * 2 ^ k) % 2 ^ 256
value-shl_loop_beyond u j k far =
    let split : 2 ^ (64 * j) ≡ 2 ^ 256 * 2 ^ (64 * j - 256) =
      sym (pow-sub 256 (64 * j) (omega arith)) in
    rw (loop_beyond u j k far, split) (omega arith)

value-shl_loop :
    (u : Uint256) (j k : ℕ)
    → IsWords u
    → k < 64
    → value (shl_loop j k u) ≡ 2 ^ (64 * j) * (value u * 2 ^ k) % 2 ^ 256
value-shl_loop u j zero h lt = elim (dec_lt j 4) [
  | yes below ↦ value-shl_loop_whole u j h below
  | no far ↦ value-shl_loop_beyond u j 0 (omega arith)
]
value-shl_loop u j (suc k) h lt = elim (dec_lt j 4) [
  | yes below ↦ value-shl_loop_words u j (suc k) h (omega arith) lt below
  | no far ↦ value-shl_loop_beyond u j (suc k) (omega arith)
]

-- On an integer of four u64 words, `shl` multiplies by the power of two, modulo 2 ^ 256.
pub value-shl : (u : Uint256) (s : ℕ) → IsWords u → value (shl u s) ≡ value u * 2 ^ s % 2 ^ 256
unfolding shl
value-shl u s h =
    rw (value-shl_loop u (s / 64) (s % 64) h (omega arith))
      (omega (arith, ap (λ (t : ℕ). value u * t) split))
  where
    split : 2 ^ s ≡ 2 ^ (64 * (s / 64)) * 2 ^ (s % 64)
    split = ap (λ (t : ℕ). 2 ^ t) (omega arith) ∙ pow-add (64 * (s / 64)) (s % 64)

add_word-IsWords : (r : Uint256) (k v : ℕ) → IsWords r → IsWords (add_word r k v)
add_word-IsWords r zero v h = omega arith
add_word-IsWords r (suc zero) v h = omega arith
add_word-IsWords r (suc (suc zero)) v h = omega arith
add_word-IsWords r (suc (suc (suc zero))) v h = omega arith
add_word-IsWords r (suc (suc (suc (suc k)))) v h = h

if-IsWords : (b : Bool) {r r' : Uint256} → IsWords r → IsWords r' → IsWords (if b then r else r')
if-IsWords true h h' = h
if-IsWords false h h' = h'

shl_round-IsWords : (j k i w : ℕ) (r : Uint256) → IsWords r → IsWords (shl_round j k i w r)
shl_round-IsWords j k i w r h = if-IsWords _ (add_word-IsWords _ _ _ mid) mid
  where
    mid : IsWords (if ltb k 64 && ltb (i + j) 4 then add_word r (i + j) (shl64 w k) else r)
    mid = if-IsWords _ (add_word-IsWords _ _ _ h) h

-- The result of a shift is four u64 words.
pub shl-IsWords : (u : Uint256) (s : ℕ) → IsWords (shl u s)
unfolding shl shl_loop
shl-IsWords u s =
    let j = s / 64 in
    let k = s % 64 in
    let h0 = shl_round-IsWords j k 0 u.w0 zeros (omega arith) in
    let h1 = shl_round-IsWords j k 1 u.w1 (shl_round j k 0 u.w0 zeros) h0 in
    let h2 = shl_round-IsWords j k 2 u.w2 (shl_round j k 1 u.w1 (shl_round j k 0 u.w0 zeros)) h1 in
    shl_round-IsWords j k 3 u.w3
      (shl_round j k 2 u.w2 (shl_round j k 1 u.w1 (shl_round j k 0 u.w0 zeros))) h2
