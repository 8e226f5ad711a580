-- ===== src/Opencl/Options/Choice.antt =====
-- plugins/opencl/src/lib.rs: the platform that the plugin chooses.
use cryptix_miner_test.Base.{
  ◌++◌, ◌<◌, All, Bool-cases, List, Option-cases, [], ap, arith, false, inl, inr, length, none,
  refl, some, suc, true, zero, ℕ, ◌∙◌, ◌∷◌, ◌≡◌, Bool, if◌then◌else◌, subst, sym, ◌&&◌, not, ◌⊎◌,
}
use cryptix_miner_test.Base.Fallible.{some_injective}
use cryptix_miner_test.Cuda.Options.{get}
use cryptix_miner_test.Opencl.Options.{
  OpenclOpt, Platform, amd_platforms, choose_platform, has_any, is_amd,
}

-- The first AMD platform with devices.
pub record IsFirstAmd (platforms : List Platform) (p : Platform) : Type 0 where
  pub before : List Platform
  pub after : List Platform
  pub splits : platforms ≡ before ++ (p ∷ after)
  pub amd : is_amd p ≡ true
  pub others : All (λ (q : Platform). is_amd q ≡ false) before

amd_platforms-IsFirstAmd :
    (platforms : List Platform)
    → has_any (amd_platforms platforms) ≡ true
    → (p : Platform) × (get (amd_platforms platforms) 0 ≡ some p) × IsFirstAmd platforms p
unfolding amd_platforms
amd_platforms-IsFirstAmd [] e = absurd (ground (arith, e))
amd_platforms-IsFirstAmd (q ∷ qs) e = elim (Bool-cases (is_amd q)) [
  | inl yes_amd ↦
      rw (amd_platforms, yes_amd)
        (q, refl, record { before = []; after = qs; splits = refl; amd = yes_amd; others = tt })
  | inr not_amd ↦
      let later : has_any (amd_platforms qs) ≡ true =
        subst (λ (b : Bool). has_any (if b then q ∷ amd_platforms qs else amd_platforms qs) ≡ true)
          not_amd e in
      let (p, first, is) = amd_platforms-IsFirstAmd qs later in
      (
        p,
        subst (λ (b : Bool). get (if b then q ∷ amd_platforms qs else amd_platforms qs) 0 ≡ some p)
            (sym not_amd) first,
        record {
          before = q ∷ is.before;
          after = is.after;
          splits = ap (λ (ps : List Platform). q ∷ ps) is.splits;
          amd = is.amd;
          others = (not_amd, is.others);
        },
      )
]

-- Without an index of the user's, and unless AMD is disabled: where there is an AMD platform with
-- devices, the first one is chosen.
pub choose_platform-IsFirstAmd :
    (opts : OpenclOpt) (platforms : List Platform)
    → opts.opencl_platform ≡ none
    → opts.opencl_amd_disable ≡ false
    → has_any (amd_platforms platforms) ≡ true
    → (p : Platform) × (choose_platform opts platforms ≡ some p) × IsFirstAmd platforms p
unfolding choose_platform
choose_platform-IsFirstAmd opts platforms no_index enabled any =
    let (p, first, is) = amd_platforms-IsFirstAmd platforms any in
    (p, rw (choose_platform, no_index, enabled, any) first, is)

-- The indices that the options give are in range, and the devices of the platforms are listed.
pub record InRange (opts : OpenclOpt) (platforms : List Platform) : Type 0 where
  pub index : (idx : ℕ) → opts.opencl_platform ≡ some idx → idx < length platforms
  pub lists :
      (p : Platform)
      → (i : ℕ) → get platforms i ≡ some p
      → (ids : List ℕ) × (p.devices ≡ some ids)
        × ((dev : List ℕ) → opts.opencl_device ≡ some dev → All (λ (d : ℕ). d < length ids) dev)

pub get-lt : {A : Type 0} (xs : List A) (i : ℕ) → i < length xs → (x : A) × (get xs i ≡ some x)
get-lt [] i lt = absurd (omega arith)
get-lt (x ∷ xs) zero lt = (x, refl)
get-lt (x ∷ xs) (suc i) lt = get-lt xs i (omega arith)

-- An AMD platform is one of the platforms.
amd_platforms-get :
    (platforms : List Platform) (p : Platform)
    → IsFirstAmd platforms p
    → (i : ℕ) × (get platforms i ≡ some p)
amd_platforms-get platforms p is =
    let (i, found) = behind is.before in
    (i, ap (λ (ps : List Platform). get ps i) is.splits ∙ found)
  where
    behind : (before : List Platform) → (i : ℕ) × (get (before ++ (p ∷ is.after)) i ≡ some p)
    behind [] = (0, refl)
    behind (q ∷ qs) = let (i, found) = behind qs in (suc i, found)

-- Which platform is chosen: that of the user's index; else the first AMD one with devices, unless
-- AMD is disabled or has none; else the first of all.
pub record IsChoice (opts : OpenclOpt) (platforms : List Platform) (p : Platform) : Type 0 where
  pub by_index : (idx : ℕ) → opts.opencl_platform ≡ some idx → get platforms idx ≡ some p
  pub by_amd :
      opts.opencl_platform ≡ none
      → opts.opencl_amd_disable ≡ false
      → has_any (amd_platforms platforms) ≡ true
      → IsFirstAmd platforms p
  pub by_place :
      opts.opencl_platform ≡ none
      → (opts.opencl_amd_disable ≡ true) ⊎ (has_any (amd_platforms platforms) ≡ false)
      → get platforms 0 ≡ some p

pub choose_platform-IsChoice :
    (opts : OpenclOpt) (platforms : List Platform) (p : Platform)
    → choose_platform opts platforms ≡ some p
    → IsChoice opts platforms p
unfolding choose_platform
choose_platform-IsChoice opts platforms p e = record {
  by_index = λ idx given. sym (rw (choose_platform, given) refl) ∙ e;
  by_amd = λ no_index enabled any.
      let (q, chosen, is) = choose_platform-IsFirstAmd opts platforms no_index enabled any in
      subst (IsFirstAmd platforms) (some_injective (sym chosen ∙ e)) is;
  by_place = λ no_index else_first. elim else_first [
    | inl disabled ↦ sym (rw (choose_platform, no_index, disabled) refl) ∙ e
    | inr nothing ↦
        sym (rw (choose_platform, no_index, nothing) (no_amd opts.opencl_amd_disable)) ∙ e
  ];
}
  where
    no_amd :
        (disabled : Bool)
        → (if not disabled && false then get (amd_platforms platforms) 0 else get platforms 0)
          ≡ get platforms 0
    no_amd true = refl
    no_amd false = refl

pub choose_platform-get :
    (opts : OpenclOpt) (q : Platform) (qs : List Platform)
    → InRange opts (q ∷ qs)
    → (p : Platform) × (choose_platform opts (q ∷ qs) ≡ some p)
      × ((i : ℕ) × (get (q ∷ qs) i ≡ some p))
unfolding choose_platform
choose_platform-get opts q qs r = elim (Option-cases opts.opencl_platform) [
  | inr (idx, given) ↦
      let (p, found) = get-lt (q ∷ qs) idx (r.index idx given) in
      (p, rw (choose_platform, given) found, (idx, found))
  | inl none_given ↦
      elim (Bool-cases (not opts.opencl_amd_disable && has_any (amd_platforms (q ∷ qs)))) [
        | inr first ↦ (q, rw (choose_platform, none_given, first) refl, (0, refl))
        | inl amd ↦
            let (p, found, is) =
              amd_platforms-IsFirstAmd (q ∷ qs) (both_true (not opts.opencl_amd_disable) amd) in
            (p, rw (choose_platform, none_given, amd) found, amd_platforms-get (q ∷ qs) p is)
      ]
]
  where
    both_true : {y : Bool} (x : Bool) → (x && y) ≡ true → y ≡ true
    both_true true e = e
    both_true false e = absurd (ground (arith, e))
