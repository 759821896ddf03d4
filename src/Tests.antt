-- ===== src/Tests.antt =====
-- The development at concrete inputs.
pub mod Inputs
pub mod Lists
pub mod Programs
pub mod Server
pub mod Files
pub mod Updating
pub mod Registry
pub mod Serving
