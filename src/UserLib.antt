-- ===== src/UserLib.antt =====
-- The library of user programs (programs/stdlib/src/stdlib.c): numbers as text, the allocator, the tokens
-- of a line, and the reading of a line.
pub mod Number
pub mod Malloc
pub mod Tokens
pub mod Readline
mod Tests
