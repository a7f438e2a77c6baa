-- ===== src/Crud.antt =====
-- src/crud_file_manager.cc and src/crud_handler.cc: entities as files under the directory of a route.
pub mod Ids
pub mod Manager
pub mod Handler
