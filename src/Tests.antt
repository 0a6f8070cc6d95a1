-- ===== src/Tests.antt =====
-- Concrete runs, and each theorem at a concrete input.
mod Muduo
mod Words
mod Checker
mod Strings
mod Codec
mod Server
mod Callback
mod Chunk
mod Pattern
mod Replace
mod Sort
mod Insert
mod Nodes
mod Tables
mod Keys
