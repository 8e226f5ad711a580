-- ===== src/Opencl/Worker/Matrix.antt =====
-- plugins/opencl/src/worker.rs: what a worker's device holds of a block.
use cryptix_miner_test.Base.{
  ◌*◌, ◌++◌, All, List, [], arith, drop, length, refl, some, suc, zero, ℕ, ◌∷◌, ◌≡◌, ◌≤◌, Bool, ap,
  false, length-append, length-drop, sym, true, ◌∙◌,
}
use cryptix_miner_test.Pow.Matrix.Nibbles.{IsMatrix, IsRow}
use cryptix_miner_test.Opencl.Worker.{
  Driver, OpenclGpuWorker, cl_uchar_matrix, each_event, flat_map, load_block_constants, pack,
}

-- A write that fits replaces the first elements of the buffer and leaves the others.
pub record Writes (driver : Driver) : Type 0 where
  pub write_fits :
      (buffer xs : List ℕ)
      → length xs ≤ length buffer
      → driver.enqueue_write_buffer buffer xs ≡ some (xs ++ drop (length xs) buffer)

-- The buffers as `new` allocates them.
pub record IsAllocated (self : OpenclGpuWorker) : Type 0 where
  pub final_nonce_length : length self.final_nonce ≡ 1
  pub hash_header_length : length self.hash_header ≡ 72
  pub matrix_length : length self.matrix ≡ 64 * 64
  pub target_length : length self.target ≡ 4

-- The elements of the rows, one after the other.
abbrev pub elements : List (List ℕ) → List ℕ
elements rows = flat_map (λ row. row) rows

length-pack : (n : ℕ) (row : List ℕ) → length row ≡ 2 * n → length (pack row) ≡ n
unfolding pack
length-pack n [] l = omega (arith, l)
length-pack n (x ∷ []) l = absurd (omega (arith, l))
length-pack zero (x ∷ y ∷ rest) l = absurd (omega (arith, l))
length-pack (suc n) (x ∷ y ∷ rest) l = ap suc (length-pack n rest (omega (arith, l)))

length-elements :
    (rows : List (List ℕ))
    → All IsRow rows
    → (length (flat_map pack rows) ≡ 32 * length rows) × (length (elements rows) ≡ 64 * length rows)
length-elements [] a = (refl, refl)
length-elements (row ∷ rows) ((nibbles, l), a) =
    let (short, long) = length-elements rows a in
    (
      length-append (pack row) (flat_map pack rows) ∙ omega (arith, length-pack 32 row l, short),
      length-append row (elements rows) ∙ omega (arith, l, long),
    )

drop-all : (xs : List ℕ) (n : ℕ) → length xs ≡ n → drop n xs ≡ []
drop-all [] zero e = refl
drop-all [] (suc n) e = absurd (omega arith)
drop-all (x ∷ xs) zero e = absurd (omega arith)
drop-all (x ∷ xs) (suc n) e = drop-all xs n (omega arith)

-- A write as long as the buffer.
pub write_whole :
    (driver : Driver) (buffer xs : List ℕ)
    → Writes driver
    → length xs ≡ length buffer
    → driver.enqueue_write_buffer buffer xs ≡ some xs
write_whole driver buffer xs w e =
    w.write_fits buffer xs (omega arith)
    ∙ ap (λ (ys : List ℕ). some (xs ++ ys)) (drop-all buffer (length xs) (sym e))
    ∙ ap some (append_nil xs)
  where
    append_nil : (ys : List ℕ) → ys ++ [] ≡ ys
    append_nil [] = refl
    append_nil (y ∷ ys) = ap (λ (zs : List ℕ). y ∷ zs) (append_nil ys)

-- What a worker's device holds of a block.
pub record Holds (self : OpenclGpuWorker) (hash_header : List ℕ) (matrix : List (List ℕ))
    (target : List ℕ) (copy_target : ℕ) : Type 0 where
  pub no_nonce : self.final_nonce ≡ 0 ∷ []
  pub header : self.hash_header ≡ hash_header
  pub matrix_is : self.experimental_amd ≡ false → self.matrix ≡ elements matrix
  pub target_is : self.target ≡ target
  pub waits : self.events ≡ copy_target ∷ []

-- What a load leaves as it was.
pub record Keeps (self self' : OpenclGpuWorker) : Type 0 where
  pub same_random : self'.random ≡ self.random
  pub same_state : self'.random_state ≡ self.random_state
  pub same_hash : self'.final_hash ≡ self.final_hash
  pub same_local_size : self'.local_size ≡ self.local_size
  pub same_workload : self'.workload ≡ self.workload
  pub same_packing : self'.experimental_amd ≡ self.experimental_amd

matrix_written :
    (driver : Driver) (packs : Bool) (buffer : List ℕ) (matrix : List (List ℕ))
    → Writes driver
    → length buffer ≡ 64 * 64
    → IsMatrix matrix
    → (written : List ℕ) × (driver.enqueue_write_buffer buffer (cl_uchar_matrix packs matrix)
        ≡ some written)
      × (length written ≡ 64 * 64)
      × (packs ≡ false → written ≡ elements matrix)
unfolding cl_uchar_matrix
matrix_written driver true buffer matrix w l (rows, n) =
    let (short, long) = length-elements matrix rows in
    let xs = flat_map pack matrix in
    (
      xs ++ drop (length xs) buffer,
      w.write_fits buffer xs (omega (arith, short, n, l)),
      length-append xs (drop (length xs) buffer)
          ∙ omega (arith, length-drop (length xs) buffer, short, n, l),
      λ e. absurd (ground (arith, e)),
    )
matrix_written driver false buffer matrix w l (rows, n) =
    let (short, long) = length-elements matrix rows in
    (
      elements matrix,
      write_whole driver buffer (elements matrix) w (omega (arith, long, n, l)),
      omega (arith, long, n),
      λ e. refl,
    )

-- Writes that fit succeed and the event can be retained: loading a block into the allocated
-- buffers does not panic, packed or not. The device then holds no nonce, the header, the target,
-- and, when it is not packed, every element of the matrix; the worker waits for the last write, its
-- buffers keep their sizes, and the rest is as it was.
pub load_block_constants-Holds :
    (driver : Driver) (self : OpenclGpuWorker) (hash_header : List ℕ) (matrix : List (List ℕ))
    (target : List ℕ) (copy_target : ℕ)
    → Writes driver
    → driver.retain_event copy_target ≡ true
    → IsAllocated self
    → length hash_header ≡ 72
    → IsMatrix matrix
    → length target ≡ 4
    → (self' : OpenclGpuWorker) × (load_block_constants driver self hash_header matrix target
          copy_target
        ≡ some self')
      × Holds self' hash_header matrix target copy_target
      × IsAllocated self'
      × Keeps self self'
unfolding load_block_constants each_event
load_block_constants-Holds driver self hash_header matrix target copy_target w r a h m t =
    let (written, wrote, l, is) =
      matrix_written driver self.experimental_amd self.matrix matrix w a.matrix_length m in
    (
      record self {
        final_nonce = 0 ∷ [];
        hash_header = hash_header;
        matrix = written;
        target = target;
        events = copy_target ∷ [];
      },
      rw
          (
            write_whole driver self.final_nonce (0 ∷ []) w (omega (arith, a.final_nonce_length)),
            write_whole driver self.hash_header hash_header w
                (omega (arith, a.hash_header_length, h)),
            wrote,
            write_whole driver self.target target w (omega (arith, a.target_length, t)),
            r,
          )
          refl,
      record { no_nonce = refl; header = refl; matrix_is = is; target_is = refl; waits = refl },
      record {
        final_nonce_length = refl;
        hash_header_length = h;
        matrix_length = l;
        target_length = t;
      },
      record {
        same_random = refl;
        same_state = refl;
        same_hash = refl;
        same_local_size = refl;
        same_workload = refl;
        same_packing = refl;
      },
    )
