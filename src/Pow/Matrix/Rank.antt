-- ===== src/Pow/Matrix/Rank.antt =====
-- src/pow/heavy_hash.rs: `compute_rank`, Gauss elimination on floats, whose operations are a
-- parameter.
use cryptix_miner_test.Base.Fallible.{some_injective}
use cryptix_miner_test.Base.{
  update_from, ◌&&◌, ◌+◌, ◌<◌, ◌==◌, Bool, List, Option, Option-cases, [], arith, false, get_or,
  if◌then◌else◌, inl, inr, length, ltb, map, none, not, replicate, set, some, suc, true, zero, ℕ,
  ◌∷◌, ◌≡◌, All, length-set, refl, subst, ◌∙◌, ◌≤◌,
}

-- The operations on f64 that the elimination uses; `is_big` is the test of an absolute value
-- against `EPS`.
pub record Floats : Type 1 where
  pub F : Type 0
  pub from_u8 : ℕ → F
  pub divide : F → F → F
  pub minus : F → F → F
  pub times : F → F → F
  pub is_big : F → Bool

-- The state of the elimination.
pub record Elimination (F : Type 0) : Type 0 where
  pub mat_float : List (List F)
  pub row_selected : List Bool
  pub rank : ℕ

module _ (floats : Floats) where
  open floats use {F, from_u8, divide, minus, times, is_big}

  -- `convert_to_float`
  unfoldable pub convert_to_float : List (List ℕ) → List (List F)
  convert_to_float matrix = map (λ row. map from_u8 row) matrix

  abbrev element : List (List F) → ℕ → ℕ → F
  element mat j i = get_or (get_or mat j []) i (from_u8 0)

  -- The search for a row from j on, among n of them: `j` at the end of the loop, or `none` for 64.
  unfoldable pub find_row : ℕ → ℕ → ℕ → Elimination F → Option ℕ
  find_row zero j i e = none
  find_row (suc n) j i e =
      let rest = find_row n (suc j) i e in
      if not (get_or e.row_selected j false) && is_big (element e.mat_float j i)
      then some j
      else rest

  -- The row j, divided by its element i from the next column on.
  unfoldable pub divided : ℕ → List F → List F
  divided i row =
      let pivot = get_or row i (from_u8 0) in
      update_from 0 (λ p x. if ltb i p then divide x pivot else x) row

  -- Another row, less the row j times its element i, from the next column on.
  unfoldable pub reduced : ℕ → List F → List F → List F
  reduced i pivot_row row =
      let factor = get_or row i (from_u8 0) in
      if is_big factor
      then update_from 0
          (λ p x. if ltb i p then minus x (times (get_or pivot_row p (from_u8 0)) factor) else x)
          row
      else row

  -- The turn of the loop for the column i.
  unfoldable pub eliminate : ℕ → Elimination F → Elimination F
  unfolding find_row divided reduced
  eliminate i e = elim (find_row 64 0 i e) [
    | none ↦ e
    | some j ↦
        let pivot_row : List F = divided i (get_or e.mat_float j []) in
        record {
          mat_float =
              update_from 0 (λ k row. if k == j then pivot_row else reduced i pivot_row row)
                e.mat_float;
          row_selected = set e.row_selected j true;
          rank = e.rank + 1;
        }
  ]

  unfoldable pub eliminate_from : ℕ → ℕ → Elimination F → Elimination F
  unfolding eliminate
  eliminate_from zero i e = e
  eliminate_from (suc n) i e = eliminate_from n (suc i) (eliminate i e)

  unfoldable pub elimination_of : List (List ℕ) → Elimination F
  unfolding convert_to_float eliminate_from
  elimination_of matrix =
      eliminate_from 64 0 (record {
        mat_float = convert_to_float matrix;
        row_selected = replicate 64 false;
        rank = 0;
      })

  -- `compute_rank`
  unfoldable pub compute_rank : List (List ℕ) → ℕ
  unfolding elimination_of
  compute_rank matrix = (elimination_of matrix).rank

  abbrev selected : List Bool → ℕ
  selected [] = 0
  selected (b ∷ bs) = (if b then 1 else 0) + selected bs

  -- The rows selected are as many as the rank, of 64.
  record Counts (e : Elimination F) : Type 0 where
    rows : length e.row_selected ≡ 64
    ranks : selected e.row_selected ≡ e.rank

  selected-set :
      (bs : List Bool) (j : ℕ)
      → j < length bs
      → get_or bs j false ≡ false
      → selected (set bs j true) ≡ selected bs + 1
  selected-set [] j lt e = absurd (omega arith)
  selected-set (b ∷ bs) zero lt e = rw e (omega arith)
  selected-set (b ∷ bs) (suc j) lt e = omega (arith, selected-set bs j (omega arith) e)

  find_row-free :
      (n j i k : ℕ) (e : Elimination F)
      → find_row n j i e ≡ some k
      → (k < j + n) × (get_or e.row_selected k false ≡ false)
  unfolding find_row
  find_row-free zero j i k e h = absurd (ground (arith, h))
  find_row-free (suc n) j i k e h =
      go (get_or e.row_selected j false) (is_big (element e.mat_float j i)) refl h
        (λ later. find_row-free n (suc j) i k e later)
    where
      Free : ℕ → Type 0
      Free bound = (k < bound) × (get_or e.row_selected k false ≡ false)

      go :
          (taken big : Bool)
          → get_or e.row_selected j false ≡ taken
          → (if not taken && big then some j else find_row n (suc j) i e) ≡ some k
          → (find_row n (suc j) i e ≡ some k → Free (suc j + n))
          → Free (j + suc n)
      go false true free h ih =
          let same : j ≡ k = some_injective h in
          (omega arith, subst (λ (t : ℕ). get_or e.row_selected t false ≡ false) same free)
      go false false free h ih = let (lt, later) = ih h in (omega arith, later)
      go true big taken h ih = let (lt, later) = ih h in (omega arith, later)

  eliminate-Counts : (i : ℕ) (e : Elimination F) → Counts e → Counts (eliminate i e)
  unfolding eliminate
  eliminate-Counts i e c = elim (Option-cases (find_row 64 0 i e)) [
    | inl absent ↦ rw (eliminate, absent) c
    | inr (j, found) ↦
        let (lt, free) = find_row-free 64 0 i j e found in
        rw (eliminate, found)
          (record {
            rows = length-set e.row_selected j true ∙ c.rows;
            ranks =
                omega (arith, selected-set e.row_selected j (omega (arith, c.rows)) free, c.ranks);
          })
  ]

  eliminate_from-Counts : (n i : ℕ) (e : Elimination F) → Counts e → Counts (eliminate_from n i e)
  unfolding eliminate_from
  eliminate_from-Counts zero i e c = c
  eliminate_from-Counts (suc n) i e c =
      eliminate_from-Counts n (suc i) (eliminate i e) (eliminate-Counts i e c)

  selected-le :
      (bs : List Bool)
      → (selected bs ≤ length bs) × (selected bs ≡ length bs → All (λ (b : Bool). b ≡ true) bs)
  selected-le [] = (omega arith, λ e. tt)
  selected-le (true ∷ bs) =
      let (le, all) = selected-le bs in (omega arith, λ e. (refl, all (omega (arith, e))))
  selected-le (false ∷ bs) =
      let (le, all) = selected-le bs in (omega arith, λ e. absurd (omega (arith, e, le)))

  -- Whatever the floats do: the rank of a matrix is at most 64, it is the number of rows that the
  -- elimination has selected, each once, and a rank of 64 means that all rows were.
  pub compute_rank-selected :
      (matrix : List (List ℕ))
      → (compute_rank matrix ≤ 64)
        × (selected (elimination_of matrix).row_selected ≡ compute_rank matrix)
        × (compute_rank matrix ≡ 64
            → All (λ (b : Bool). b ≡ true) (elimination_of matrix).row_selected)
  unfolding compute_rank elimination_of
  compute_rank-selected matrix =
      let start : Elimination F = record {
        mat_float = convert_to_float matrix;
        row_selected = replicate 64 false;
        rank = 0;
      } in
      let c = eliminate_from-Counts 64 0 start (record { rows = refl; ranks = refl }) in
      let (le, all) = selected-le (eliminate_from 64 0 start).row_selected in
      (
        omega (arith, le, c.rows, c.ranks),
        c.ranks,
        λ full. all (omega (arith, full, c.rows, c.ranks)),
      )
