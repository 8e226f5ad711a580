-- ===== src/Jump/Zeros.antt =====
-- src/xoshiro256starstar.rs: a generator that is seeded with zeros.
use cryptix_miner_test.Base.{
  ℕ, All, List, ◌≡◌, refl, ◌==◌, Bool-cases, [], ◌^◌, ap, bit_and, inl, inr, subst, suc, sym, zero,
  ◌∙◌, ◌∷◌,
}
use cryptix_miner_test.Jump.{
  Xoshiro256StarStar, zeros, next_u64, jump_bits, jump_words, long_jump, long_jump_words,
  iter_jump_state,
}

next_u64-zeros : next_u64 zeros ≡ (zeros, 0)
unfolding next_u64
next_u64-zeros = refl

jump_bits-zeros : (n b jmp : ℕ) → jump_bits n b jmp zeros zeros ≡ (zeros, zeros)
unfolding jump_bits next_u64
jump_bits-zeros zero b jmp = refl
jump_bits-zeros (suc n) b jmp = elim (Bool-cases (bit_and jmp (2 ^ b) == 0)) [
  | inl e ↦ rw e (jump_bits-zeros n (suc b) jmp)
  | inr e ↦ rw e (jump_bits-zeros n (suc b) jmp)
]

jump_words-zeros : (words : List ℕ) → jump_words words zeros zeros ≡ zeros
unfolding jump_words
jump_words-zeros [] = refl
jump_words-zeros (jmp ∷ words) =
    ap (λ (x : Xoshiro256StarStar × Xoshiro256StarStar). jump_words words x.0 x.0)
      (jump_bits-zeros 64 0 jmp)
    ∙ jump_words-zeros words

-- From a seed of zeros every state of the sequence is zeros: the threads of a GPU would all try the
-- same nonces.
pub iter_jump_state-zeros : (n : ℕ) → All (λ s. s ≡ zeros) (iter_jump_state n zeros)
unfolding iter_jump_state long_jump
iter_jump_state-zeros zero = tt
iter_jump_state-zeros (suc n) = (
  jump_words-zeros long_jump_words,
  subst (λ s. All (λ x. x ≡ zeros) (iter_jump_state n s)) (sym (jump_words-zeros long_jump_words))
      (iter_jump_state-zeros n),
)
