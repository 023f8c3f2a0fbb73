-- ===== src/Tests.antt =====
-- Runs of the model at concrete inputs.
pub mod Stream
pub mod Network
pub mod Programs
pub mod Objects
pub mod Events
pub mod Pages
pub mod Box
pub mod Docs
pub mod Data
