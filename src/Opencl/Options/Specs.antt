-- ===== src/Opencl/Options/Specs.antt =====
-- plugins/opencl/src/lib.rs: what the spec of a device holds.
use cryptix_miner_test.Base.{
  ◌-◌, ◌<◌, Bool-cases, List, Option, [], ap, arith, if◌then◌else◌, inl, inr, length, ltb, min,
  none, not, refl, some, subst, sym, ℕ, ◌∙◌, ◌∷◌, ◌≡◌,
}
use cryptix_miner_test.Base.Fallible.{some_injective}
use cryptix_miner_test.Cuda.Options.{get, last_of, pick_indexed}
use cryptix_miner_test.Opencl.Options.{
  OpenclOpt, OpenclWorkerSpec, Platform, default_workload_scale, or_default, spec_of,
}
use cryptix_miner_test.Opencl.Options.Choice.{get-lt}

-- The workload at a place: that of the list at the place, or its last one, or the default.
pub record IsWorkload (given : Option (List ℕ)) (i workload : ℕ) : Type 0 where
  pub of_list :
      (w : List ℕ) → given ≡ some w → 0 < length w → get w (min i (length w - 1)) ≡ some workload
  pub of_none : given ≡ none → workload ≡ default_workload_scale
  pub of_nothing : given ≡ some [] → workload ≡ default_workload_scale

-- The spec of a device at a place, by the options.
pub record IsSpec (opts : OpenclOpt) (platform : Platform) (i gpu : ℕ) (spec : OpenclWorkerSpec)
    : Type 0 where
  pub on_platform : spec.platform ≡ platform
  pub at_place : spec.index ≡ i
  pub of_device : spec.device_id ≡ gpu
  pub works : IsWorkload opts.opencl_workload i spec.workload
  pub absolute : spec.is_absolute ≡ opts.opencl_workload_absolute
  pub experimental : spec.experimental_amd ≡ opts.experimental_amd
  pub binary : spec.use_amd_binary ≡ not opts.opencl_no_amd_binary
  pub nonces : spec.random ≡ opts.opencl_nonce_gen

get-last_of : (x : ℕ) (xs : List ℕ) → get (x ∷ xs) (length xs) ≡ last_of (x ∷ xs)
get-last_of x [] = refl
get-last_of x (y ∷ ys) = get-last_of y ys

-- A place of a list that is not empty, or its last one.
picked :
    (x : ℕ) (xs : List ℕ) (i : ℕ)
    → (if ltb i (length (x ∷ xs)) then get (x ∷ xs) i else last_of (x ∷ xs))
      ≡ get (x ∷ xs) (min i (length (x ∷ xs) - 1))
picked x xs i = elim (Bool-cases (ltb i (length (x ∷ xs)))) [
  | inl e ↦ rw e (ap (get (x ∷ xs)) (ground (arith, e)))
  | inr e ↦ rw e (sym (get-last_of x xs) ∙ ap (get (x ∷ xs)) (ground (arith, e)))
]

listed :
    (x : ℕ) (xs : List ℕ) (j : ℕ) (o : Option ℕ)
    → j < length (x ∷ xs)
    → o ≡ get (x ∷ xs) j
    → get (x ∷ xs) j ≡ some (or_default default_workload_scale o)
listed x xs j o lt e =
    let (w, found) = get-lt (x ∷ xs) j lt in
    found ∙ ap (λ (p : Option ℕ). some (or_default default_workload_scale p)) (sym (e ∙ found))

pick_indexed-IsWorkload :
    (given : Option (List ℕ)) (i : ℕ)
    → IsWorkload given i (or_default default_workload_scale (pick_indexed given i))
unfolding pick_indexed
pick_indexed-IsWorkload none i = record {
  of_list = λ w e lt. absurd (ground (arith, e));
  of_none = λ e. refl;
  of_nothing = λ e. refl;
}
pick_indexed-IsWorkload (some []) i = record {
  of_list = λ w e lt. absurd (ground (arith, ap length (some_injective e), lt));
  of_none = λ e. absurd (ground (arith, e));
  of_nothing = λ e. ground arith;
}
pick_indexed-IsWorkload (some (x ∷ xs)) i = record {
  of_list = λ w e lt.
      subst
        (λ (v : List ℕ).
          get v (min i (length v - 1))
          ≡ some (
              or_default default_workload_scale
                (if ltb i (length (x ∷ xs)) then get (x ∷ xs) i else last_of (x ∷ xs))))
        (some_injective e)
        (listed x xs (min i (length (x ∷ xs) - 1)) _ (omega arith) (picked x xs i));
  of_none = λ e. absurd (ground (arith, e));
  of_nothing = λ e. absurd (ground (arith, ap length (some_injective e)));
}

pub spec_of-IsSpec :
    (opts : OpenclOpt) (platform : Platform) (i gpu : ℕ)
    → IsSpec opts platform i gpu (spec_of opts platform i gpu)
unfolding spec_of
spec_of-IsSpec opts platform i gpu = record {
  on_platform = refl;
  at_place = refl;
  of_device = refl;
  works = pick_indexed-IsWorkload opts.opencl_workload i;
  absolute = refl;
  experimental = refl;
  binary = refl;
  nonces = refl;
}
