-- ===== src/Examples.antt =====
-- The theorems at concrete inputs.
mod TargetCases
mod HeaderCases
mod StratumCases
mod ShareCases
mod PowCases
mod VectorCases
mod MinerCases
mod CudaCases
mod OpenclCases
mod TurnCases
mod CliCases
mod GpuCases
mod ThreadCases
mod PoolCases
mod JobCases
mod RankCases
mod SpecCases
use cryptix_miner_test.Base.{}
