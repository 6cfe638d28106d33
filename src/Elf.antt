-- ===== src/Elf.antt =====
-- src/elf: the parser of ELF files and what it answers.
pub mod Types
pub mod SymTab
pub mod Backend
pub mod Headers
pub mod Sections
pub mod Parser
pub mod Translate
