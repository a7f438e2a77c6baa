-- ===== src/App.antt =====
-- src/app_handler.cc.
pub mod Caption
pub mod Landing
pub mod Form
pub mod Services
pub mod Prompts
pub mod Scores
pub mod Answer
