-- ===== src/Miner/Specs/Fallbacks.antt =====
-- src/miner.rs: the fallback of a GPU worker.
use cryptix_miner_test.Base.{
  ℕ, All, All-append, Bool, Bool-cases, List, Option, [], ◌∷◌, ◌==◌, ◌≡◌, arith, false, inl, inr,
  map, none, refl, some, true, ==_iff, ap₂, sym, ◌∙◌,
}
use cryptix_miner_test.Base.Ascii.{eq_text}
use cryptix_miner_test.Miner.Specs.{
  Plan, is_cuda_id, is_nvidia, nvidia_match_key, or_insert, remove, sort_spec, sort_specs,
  pair_primaries, plan_gpu_specs, alone,
}

pub eq_text-eq : (a b : List ℕ) → eq_text a b ≡ true → a ≡ b
eq_text-eq [] [] e = refl
eq_text-eq [] (d ∷ ds) e = absurd (ground (arith, e))
eq_text-eq (c ∷ cs) [] e = absurd (ground (arith, e))
eq_text-eq (c ∷ cs) (d ∷ ds) e = elim (Bool-cases (c == d)) [
  | inl same ↦
      ap₂ (λ (x : ℕ) (xs : List ℕ). x ∷ xs) ((==_iff c d).0 same)
        (eq_text-eq cs ds (ground (arith, same, e)))
  | inr other ↦ absurd (ground (arith, other, e))
]

module _ {S : Type 0} (id : S → List ℕ) where
  -- An entry of one of the two maps: its key is its spec's, and its spec is of the map's kind.
  abbrev IsEntry : Bool → List ℕ × S → Type 0
  IsEntry cuda (key, spec) = (key ≡ nvidia_match_key (id spec)) × (is_cuda_id (id spec) ≡ cuda)

  or_insert-IsEntry :
      (cuda : Bool) (key : List ℕ) (spec : S) (m : List (List ℕ × S))
      → IsEntry cuda (key, spec)
      → All (IsEntry cuda) m
      → All (IsEntry cuda) (or_insert key spec m)
  unfolding or_insert
  or_insert-IsEntry cuda key spec [] h hs = (h, tt)
  or_insert-IsEntry cuda key spec ((k, s) ∷ m) h (g, hs) = elim (Bool-cases (eq_text k key)) [
    | inl e ↦ rw (or_insert, e) (g, hs)
    | inr e ↦ rw (or_insert, e) (g, or_insert-IsEntry cuda key spec m h hs)
  ]

  abbrev FoundAt : List ℕ → Option S → Type 0
  FoundAt key none = Unit
  FoundAt key (some s) = IsEntry true (key, s)

  abbrev Removed : List ℕ → Option S × List (List ℕ × S) → Type 0
  Removed key (found, rest) = FoundAt key found × All (IsEntry true) rest

  remove-Removed :
      (key : List ℕ) (m : List (List ℕ × S)) → All (IsEntry true) m → Removed key (remove key m)
  unfolding remove
  remove-Removed key [] hs = (tt, tt)
  remove-Removed key ((k, s) ∷ m) (g, hs) = elim (Bool-cases (eq_text k key)) [
    | inl e ↦ rw (remove, e) ((sym (eq_text-eq k key e) ∙ g.0, g.1), hs)
    | inr e ↦ let (found, rest) = remove-Removed key m hs in rw (remove, e) (found, (g, rest))
  ]

  -- A planned worker's fallback, if it has one, is a CUDA worker with its match key, and it is not
  -- one itself.
  abbrev pub IsFallback : S × Option S → Type 0
  IsFallback (spec, none) = Unit
  IsFallback (spec, some fallback) =
      (nvidia_match_key (id fallback) ≡ nvidia_match_key (id spec))
      × (is_cuda_id (id fallback) ≡ true)
      × (is_cuda_id (id spec) ≡ false)

  entry-IsFallback :
      (key : List ℕ) (spec : S) (found : Option S)
      → IsEntry false (key, spec)
      → FoundAt key found
      → IsFallback (spec, found)
  entry-IsFallback key spec none h g = tt
  entry-IsFallback key spec (some s) h g = (sym g.0 ∙ h.0, g.1, h.1)

  abbrev Paired : List (S × Option S) × List (List ℕ × S) → Type 0
  Paired (pairs, left) = All IsFallback pairs × All (IsEntry true) left

  pair_primaries-Paired :
      (primaries fallbacks : List (List ℕ × S))
      → All (IsEntry false) primaries
      → All (IsEntry true) fallbacks
      → Paired (pair_primaries id primaries fallbacks)
  unfolding pair_primaries
  pair_primaries-Paired [] fallbacks hs gs = (tt, gs)
  pair_primaries-Paired ((key, spec) ∷ primaries) fallbacks (h, hs) gs =
      let (found, rest) = remove-Removed key fallbacks gs in
      let (pairs, left) = pair_primaries-Paired primaries (remove key fallbacks).1 hs rest in
      ((entry-IsFallback key spec (remove key fallbacks).0 h found, pairs), left)

  record IsSorted (p : Plan S) : Type 0 where
    planned_are : All IsFallback p.planned
    primary_are : All (IsEntry false) p.nvidia_opencl_primary
    fallbacks_are : All (IsEntry true) p.nvidia_cuda_fallbacks

  sort_spec-IsSorted : (p : Plan S) (spec : S) → IsSorted p → IsSorted (sort_spec id p spec)
  unfolding sort_spec
  sort_spec-IsSorted p spec h = elim (Bool-cases (is_nvidia (id spec))) [
    | inr other ↦
        rw (sort_spec, other)
          (record {
            planned_are =
                All-append IsFallback p.planned ((spec, none) ∷ []) h.planned_are (tt, tt);
            primary_are = h.primary_are;
            fallbacks_are = h.fallbacks_are;
          })
    | inl nvidia ↦ elim (Bool-cases (is_cuda_id (id spec))) [
      | inl cuda ↦
          rw (sort_spec, nvidia, cuda)
            (record {
              planned_are = h.planned_are;
              primary_are = h.primary_are;
              fallbacks_are = or_insert-IsEntry true _ spec _ (refl, cuda) h.fallbacks_are;
            })
      | inr opencl ↦
          rw (sort_spec, nvidia, opencl)
            (record {
              planned_are = h.planned_are;
              primary_are = or_insert-IsEntry false _ spec _ (refl, opencl) h.primary_are;
              fallbacks_are = h.fallbacks_are;
            })
    ]
  ]

  sort_specs-IsSorted :
      (p : Plan S) (specs : List S) → IsSorted p → IsSorted (sort_specs id p specs)
  unfolding sort_specs
  sort_specs-IsSorted p [] h = h
  sort_specs-IsSorted p (spec ∷ specs) h =
      sort_specs-IsSorted (sort_spec id p spec) specs (sort_spec-IsSorted p spec h)

  alone-IsFallback : (m : List (List ℕ × S)) → All IsFallback (map (alone id) m)
  alone-IsFallback [] = tt
  alone-IsFallback ((key, spec) ∷ m) = (tt, alone-IsFallback m)

  -- When a HashMap gives no entry but its own, every fallback of the plan is a CUDA worker for the
  -- device of a worker that is not one: the two have the same match key.
  pub plan_gpu_specs-IsFallback :
      (order : List (List ℕ × S) → List (List ℕ × S)) (specs : List S)
      → ((P : List ℕ × S → Type 0) (m : List (List ℕ × S)) → All P m → All P (order m))
      → All IsFallback (plan_gpu_specs id order specs)
  unfolding plan_gpu_specs
  plan_gpu_specs-IsFallback order specs gives =
      All-append IsFallback p.planned _ sorted.planned_are (
        All-append IsFallback
          (pair_primaries id (order p.nvidia_opencl_primary) p.nvidia_cuda_fallbacks).0 _ paired.0
          (alone-IsFallback _))
    where
      p : Plan S
      p =
          sort_specs id
            (record { planned = []; nvidia_opencl_primary = []; nvidia_cuda_fallbacks = [] }) specs

      sorted : IsSorted p
      sorted =
          sort_specs-IsSorted _ specs
            (record { planned_are = tt; primary_are = tt; fallbacks_are = tt })

      paired : Paired (pair_primaries id (order p.nvidia_opencl_primary) p.nvidia_cuda_fallbacks)
      paired =
          pair_primaries-Paired (order p.nvidia_opencl_primary) p.nvidia_cuda_fallbacks
            (gives (IsEntry false) p.nvidia_opencl_primary sorted.primary_are) sorted.fallbacks_are
