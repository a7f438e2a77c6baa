-- ===== src/Config.antt =====
-- include/config_parser.h and src/config_parser.cc
pub mod Syntax
pub mod Lexer
pub mod Parser
pub mod Printable
pub mod Printer
pub mod File
