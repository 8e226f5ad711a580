-- ===== src/Plugins/Count.antt =====
-- src/lib.rs and plugins/cuda/src/lib.rs: the count of workers that `main` goes by.
use cryptix_miner_test.Base.{
  ℕ, ◌%◌, ◌+◌, ◌<◌, ◌≡◌, ◌^◌, ◌∙◌, All, Bool-cases, List, [], ◌∷◌, ap, arith, false, if◌then◌else◌,
  inl, inr, length, length-append, refl, some, sym,
}
use cryptix_miner_test.Plugins.{PluginTrait, counted, build, process_from, process_options}
use cryptix_miner_test.Cuda.Options.{CudaOpt, CudaPlugin, CudaWorkerSpec, process_option}

module _ (trait : PluginTrait) (matchs : trait.Matches) where
  abbrev specs_of : trait.Plugin → List trait.WorkerSpec
  specs_of p = if trait.enabled p then trait.get_worker_specs p else []

  -- A plugin that counts the workers that it then gives specs for.
  abbrev pub IsExact : trait.Plugin → Type 0
  IsExact p =
      let (p', result) = trait.process_option p matchs in counted result ≡ length (specs_of p')

  build-length :
      (p : trait.Plugin) (ps : List trait.Plugin)
      → length (build trait (p ∷ ps)) ≡ length (specs_of p) + length (build trait ps)
  unfolding build
  build-length p ps = elim (Bool-cases (trait.enabled p)) [
    | inl on ↦ rw (build, on) (length-append (trait.get_worker_specs p) (build trait ps))
    | inr off ↦ rw (build, off) (omega arith)
  ]

  process_from-build :
      (count : ℕ) (ps : List trait.Plugin)
      → All IsExact ps
      → count + length (build trait (process_from trait count ps matchs).0) < 2 ^ 64
      → (process_from trait count ps matchs).1
        ≡ count + length (build trait (process_from trait count ps matchs).0)
  unfolding process_from build
  process_from-build count [] h small = omega arith
  process_from-build count (p ∷ ps) (h, hs) small =
      omega (arith, sizes, small, process_from-build next ps hs (omega (arith, sizes, small)))
    where
      k : ℕ
      k = counted (trait.process_option p matchs).1

      next : ℕ
      next = (count + k) % 2 ^ 64

      sizes :
          length (build trait (process_from trait count (p ∷ ps) matchs).0)
          ≡ k + length (build trait (process_from trait next ps matchs).0)
      sizes =
          build-length (trait.process_option p matchs).0 (process_from trait next ps matchs).0
          ∙ ap (λ (t : ℕ). t + length (build trait (process_from trait next ps matchs).0)) (sym h)

  -- When every plugin counts the workers that it then gives specs for, `process_options` gives the
  -- number of specs that `build` gives afterwards, if that is a usize.
  pub process_options-build :
      (ps : List trait.Plugin)
      → All IsExact ps
      → length (build trait (process_options trait ps matchs).0) < 2 ^ 64
      → (process_options trait ps matchs).1
        ≡ length (build trait (process_options trait ps matchs).0)
  unfolding process_options
  process_options-build ps h small = omega (arith, process_from-build 0 ps h (omega (arith, small)))

-- The trait as the CUDA plugin fills it; the options are the plugin's own.
abbrev cuda_trait : ℕ → PluginTrait
cuda_trait num_devices = record {
  Plugin = CudaPlugin;
  WorkerSpec = CudaWorkerSpec;
  Matches = CudaOpt;
  enabled = λ p. p.enabled;
  get_worker_specs = λ p. p.specs;
  process_option =
      λ p opts. let (p', requested, count) = process_option p opts num_devices in (p', some count);
}

-- A new CUDA plugin counts the workers that it then gives specs for.
pub cuda_plugin-IsExact :
    (num_devices : ℕ) (opts : CudaOpt)
    → IsExact (cuda_trait num_devices) opts (record { enabled = false; specs = [] })
unfolding process_option
cuda_plugin-IsExact num_devices opts = elim (Bool-cases opts.cuda_disable) [
  | inl off ↦ rw off refl
  | inr on ↦ rw on refl
]
