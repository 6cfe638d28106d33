-- ===== src/Gsym.antt =====
-- src/gsym: the Gsym format. Types, the line table machine, inline information, the parser of the
-- file's tables, and the resolver that answers symbolization requests.
pub mod Types
pub mod LineTab
pub mod Inline
pub mod Parser
pub mod Resolver
