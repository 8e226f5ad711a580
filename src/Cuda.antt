-- ===== src/Cuda.antt =====
-- plugins/cuda/src: the options of the CUDA plugin, its workers' launch configuration and the
-- autotuner of the power limit. The driver's calls are parameters.
pub mod Autotune
pub mod Options
pub mod Launch
use cryptix_miner_test.Base.{}
