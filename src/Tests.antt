-- ===== src/Tests.antt =====
-- Runs of the model at concrete inputs, and the theorems at concrete inputs.
pub mod Config
pub mod Logging
pub mod Interpreter
pub mod Dispatch
pub mod Handlers
pub mod Crud
pub mod App
pub mod Forms
pub mod Server
pub mod Main
pub mod Store
pub mod Refusals
pub mod Listing
pub mod Puts
