-- ===== src/Artifacts.antt =====
-- services/control-plane/internal/artifacts: the products of a run, from the output directory to
-- the rows and objects.
pub mod Paths
pub mod Safe
pub mod Outputs
pub mod Limits
pub mod Media
