-- ===== src/Examples.antt =====
-- The theorems at concrete inputs.
mod Searches
mod Numbers
mod Texts
mod Gsyms
mod Tables
mod Archives
mod Elfs
mod ElfFiles
mod Breakpads
mod Normalizing
mod Kernels
