-- ===== src/Dispatch.antt =====
-- src/request_dispatcher.cc
pub mod Request
pub mod Target
pub mod Longest
pub mod Routes
pub mod Send
