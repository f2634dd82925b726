-- ===== src/Service.antt =====
-- internal/user/service/service.go: the user service. What it is built over is in `Service.Deps`;
-- each method is in a module of its own, and the proofs are below them.
pub mod Deps
pub mod Example
mod Tests
pub mod Views
pub mod Getters
pub mod Register
pub mod Login
pub mod Sessions
pub mod Profile
pub mod Server
