-- ===== src/Opencl.antt =====
-- plugins/opencl/src: the options of the OpenCL plugin, its choice of platform and devices, its
-- workers, and what a worker gives to its device. The crate `opencl3` is a parameter.
pub mod Options
pub mod Worker
pub mod Build
use cryptix_miner_test.Base.{}
