-- ===== src/Plugins.antt =====
-- src/lib.rs: the manager of the plugins, over the trait `Plugin`. Libraries are loaded elsewhere.
pub mod Count
pub mod Load
use cryptix_miner_test.Base.{
  ℕ, ◌%◌, ◌+◌, ◌++◌, ◌^◌, Bool, List, Option, [], ◌∷◌, if◌then◌else◌, none, some,
}

-- The trait `Plugin`; `process_option` gives `none` for an error.
pub record PluginTrait : Type 1 where
  pub Plugin : Type 0
  pub WorkerSpec : Type 0
  pub Matches : Type 0
  pub enabled : Plugin → Bool
  pub get_worker_specs : Plugin → List WorkerSpec
  pub process_option : Plugin → Matches → Plugin × Option ℕ

-- How many workers a plugin adds to the count.
abbrev pub counted : Option ℕ → ℕ
counted none = 0
counted (some n) = n

module _ (trait : PluginTrait) where
  open trait use {Plugin, WorkerSpec, Matches, enabled, get_worker_specs, process_option}

  -- `PluginManager::build`
  unfoldable pub build : List Plugin → List WorkerSpec
  build [] = []
  build (plugin ∷ plugins) =
      let rest = build plugins in if enabled plugin then get_worker_specs plugin ++ rest else rest

  -- The loop of `process_options` from a count on; the count is a usize.
  unfoldable pub process_from : ℕ → List Plugin → Matches → List Plugin × ℕ
  process_from count [] matchs = ([], count)
  process_from count (plugin ∷ plugins) matchs =
      let (plugin', result) = process_option plugin matchs in
      let (plugins', total) = process_from ((count + counted result) % 2 ^ 64) plugins matchs in
      (plugin' ∷ plugins', total)

  -- `PluginManager::process_options`
  unfoldable pub process_options : List Plugin → Matches → List Plugin × ℕ
  unfolding process_from
  process_options plugins matchs = process_from 0 plugins matchs
