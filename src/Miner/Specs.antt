-- ===== src/Miner/Specs.antt =====
-- src/miner.rs: which GPU workers are started, and with which fallback. Ids are ASCII texts.
pub mod Fallbacks
use cryptix_miner_test.Base.{
  ℕ, ◌&&◌, ◌+◌, ◌-◌, ◌==◌, Bool, List, Option, [], ◌∷◌, ◌++◌, drop, false, if◌then◌else◌, ltb, map,
  none, some, take, true, not,
}
use cryptix_miner_test.Base.Text.{codes}
use cryptix_miner_test.Base.Ascii.{
  contains, eq_text, find, first_word, rfind, split_once, starts_with, to_ascii_lowercase, trim,
}

-- `is_cuda_id`
unfoldable pub is_cuda_id : List ℕ → Bool
is_cuda_id id = contains (codes "(") id && contains (codes ")") id

-- The name after the slot, for an id that starts with one.
abbrev after_slot : List ℕ → List ℕ
after_slot trimmed =
    if starts_with (codes "#") trimmed
    then elim (split_once 32 trimmed) [ none ↦ trimmed | some (slot, rest) ↦ rest ]
    else trimmed

-- The text between the first `(` and the last `)`, unless it is empty.
abbrev between : List ℕ → ℕ → ℕ → List ℕ
between trimmed start end =
    if ltb (start + 1) end then take (end - (start + 1)) (drop (start + 1) trimmed) else trimmed

abbrev base_name : List ℕ → List ℕ
base_name trimmed = elim (find b'(' trimmed) [
  | none ↦ after_slot trimmed
  | some start ↦ elim (rfind b')' trimmed) [
    | none ↦ after_slot trimmed
    | some end ↦ between trimmed start end
  ]
]

-- `normalize_gpu_name`
unfoldable pub normalize_gpu_name : List ℕ → List ℕ
normalize_gpu_name id = map to_ascii_lowercase (trim (base_name (trim id)))

-- `gpu_slot`
unfoldable pub gpu_slot : List ℕ → List ℕ
gpu_slot id =
    let trimmed = trim id in
    if starts_with (codes "#") trimmed then map to_ascii_lowercase (first_word trimmed) else []

-- `nvidia_match_key`
unfoldable pub nvidia_match_key : List ℕ → List ℕ
unfolding gpu_slot normalize_gpu_name
nvidia_match_key id = gpu_slot id ++ (codes "|" ++ normalize_gpu_name id)

-- `is_nvidia`
unfoldable pub is_nvidia : List ℕ → Bool
unfolding normalize_gpu_name
is_nvidia id = contains (codes "nvidia") (normalize_gpu_name id)

module _ {S : Type 0} where
  -- `entry(key).or_insert(spec)`, on a map as a list of its entries.
  unfoldable pub or_insert : List ℕ → S → List (List ℕ × S) → List (List ℕ × S)
  or_insert key spec [] = (key, spec) ∷ []
  or_insert key spec ((k, s) ∷ m) =
      let rest = or_insert key spec m in if eq_text k key then (k, s) ∷ m else (k, s) ∷ rest

  -- `remove(&key)`
  unfoldable pub remove : List ℕ → List (List ℕ × S) → Option S × List (List ℕ × S)
  remove key [] = (none, [])
  remove key ((k, s) ∷ m) =
      let (found, rest) = remove key m in
      if eq_text k key then (some s, m) else (found, (k, s) ∷ rest)

-- The three collections of `plan_gpu_specs`.
pub record Plan (S : Type 0) : Type 0 where
  pub planned : List (S × Option S)
  pub nvidia_opencl_primary : List (List ℕ × S)
  pub nvidia_cuda_fallbacks : List (List ℕ × S)

module _ {S : Type 0} (id : S → List ℕ) where
  -- The turn of the first loop for a spec.
  unfoldable pub sort_spec : Plan S → S → Plan S
  sort_spec p spec =
      let key = nvidia_match_key (id spec) in
      if not (is_nvidia (id spec))
      then record p { planned = p.planned ++ ((spec, none) ∷ []) }
      else if is_cuda_id (id spec)
      then record p { nvidia_cuda_fallbacks = or_insert key spec p.nvidia_cuda_fallbacks }
      else record p { nvidia_opencl_primary = or_insert key spec p.nvidia_opencl_primary }

  unfoldable pub sort_specs : Plan S → List S → Plan S
  unfolding sort_spec
  sort_specs p [] = p
  sort_specs p (spec ∷ specs) = sort_specs (sort_spec p spec) specs

  -- The second loop: each primary with its fallback, and the fallbacks that are left.
  unfoldable pub pair_primaries :
      List (List ℕ × S) → List (List ℕ × S) → List (S × Option S) × List (List ℕ × S)
  unfolding remove
  pair_primaries [] fallbacks = ([], fallbacks)
  pair_primaries ((key, spec) ∷ primaries) fallbacks =
      let (fallback, rest) = remove key fallbacks in
      let (pairs, left) = pair_primaries primaries rest in ((spec, fallback) ∷ pairs, left)

  abbrev pub alone : List ℕ × S → S × Option S
  alone (key, spec) = (spec, none)

  -- `plan_gpu_specs`; `order` is the order in which a HashMap gives its entries.
  unfoldable pub plan_gpu_specs :
      (List (List ℕ × S) → List (List ℕ × S)) → List S → List (S × Option S)
  unfolding sort_specs pair_primaries
  plan_gpu_specs order specs =
      let p : Plan S =
        sort_specs (record { planned = []; nvidia_opencl_primary = []; nvidia_cuda_fallbacks = [] })
          specs in
      let (pairs, left) = pair_primaries (order p.nvidia_opencl_primary) p.nvidia_cuda_fallbacks in
      p.planned ++ (pairs ++ map alone (order left))
