-- ===== src/Distance.antt =====
-- crates/vex-core/src/distance.rs: the metrics, with the scalar kernels of eight accumulators and
-- the AVX2 kernels. Floating-point operations are those of the platform.
pub mod Scalar
pub mod Avx
pub mod Metric
pub mod Tags
