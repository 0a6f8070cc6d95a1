-- ===== src/Lua.antt =====
-- lua515: parts of the Lua interpreter that the engine is built with.
pub mod Zio
pub mod Chunk
pub mod Opcode
pub mod Number
pub mod Strings
pub mod Checks
pub mod Checker
pub mod Classes
pub mod Captures
pub mod Pattern
pub mod Find
pub mod Replace
pub mod Sort
pub mod Nodes
pub mod Logs
pub mod Tables
pub mod Rehash
pub mod Border
pub mod Keys
pub mod Next
pub mod Insert
