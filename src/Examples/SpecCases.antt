-- ===== src/Examples/SpecCases.antt =====
-- GPU workers and their fallbacks at concrete names.
use cryptix_miner_test.Base.{List, ◌∷◌, [], All, none, refl, some, ℕ, ◌≡◌}
use cryptix_miner_test.Base.Text.{codes}
use cryptix_miner_test.Base.Ascii.{trim}
use cryptix_miner_test.Miner.Specs.{
  plan_gpu_specs, is_nvidia, is_cuda_id, or_insert, nvidia_match_key,
}
use cryptix_miner_test.Miner.Specs.Fallbacks.{IsFallback, plan_gpu_specs-IsFallback}

abbrev opencl_id : List ℕ
opencl_id = codes "#0 NVIDIA T4"

abbrev cuda_id : List ℕ
cuda_id = codes "#0 (NVIDIA T4)"

abbrev ids : List (List ℕ)
ids = cuda_id ∷ codes "#1 gfx90a" ∷ opencl_id ∷ []

abbrev own_id : List ℕ → List ℕ
own_id id = id

abbrev in_order : List (List ℕ × List ℕ) → List (List ℕ × List ℕ)
in_order m = m

-- The CUDA worker becomes the fallback of the other one.
paired :
    plan_gpu_specs own_id in_order ids ≡ (codes "#1 gfx90a", none) ∷ (opencl_id, some cuda_id) ∷ []
unfolding plan_gpu_specs is_nvidia trim is_cuda_id or_insert nvidia_match_key
paired = refl

plan_gpu_specs-IsFallback_example : All (IsFallback own_id) (plan_gpu_specs own_id in_order ids)
plan_gpu_specs-IsFallback_example = plan_gpu_specs-IsFallback own_id in_order ids (λ P m h. h)
