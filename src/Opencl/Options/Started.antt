-- ===== src/Opencl/Options/Started.antt =====
-- plugins/opencl/src/lib.rs: the devices that the specs are for, and the outcome of the options.
use cryptix_miner_test.Base.{◌<◌, List, get_or, length, none, some, true, ℕ, ◌≡◌}
use cryptix_miner_test.Cuda.Options.{get}
use cryptix_miner_test.Opencl.Options.{OpenclOpt, OpenclPlugin, Platform, OpenclWorkerSpec}
use cryptix_miner_test.Opencl.Options.Specs.{IsSpec}
use cryptix_miner_test.Opencl.Options.Choice.{IsChoice}

-- The index of the device that the GPU at place i is.
unfoldable pub device_index : OpenclOpt → ℕ → ℕ
device_index opts i = elim opts.opencl_device [ none ↦ i | some dev ↦ get_or dev i 0 ]

-- What a plugin that started has: a platform of the choice, and for each place of its list a spec
-- of the device that the options name there.
pub record Started (opts : OpenclOpt) (platforms : List Platform) (plugin : OpenclPlugin)
    (count : ℕ) : Type 0 where
  pub platform : Platform
  pub device_ids : List ℕ
  pub enabled : plugin.enabled ≡ true
  pub counted : count ≡ length plugin.specs
  pub chosen : IsChoice opts platforms platform
  pub listed : platform.devices ≡ some device_ids
  pub specs :
      (i : ℕ)
      → i < count
      → (gpu : ℕ) × (get device_ids (device_index opts i) ≡ some gpu)
        × (spec : OpenclWorkerSpec) × (get plugin.specs i ≡ some spec)
        × IsSpec opts platform i gpu spec
