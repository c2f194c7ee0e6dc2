-- ===== src/Storage/Kept.antt =====
-- A relation between stores that every statement of src/storage.ts keeps is kept by `create`, whether
-- it returns or raises. The children go through the operations once, for any such relation.
pub mod Statements
pub mod Log
pub mod Entities
pub mod Tokens
pub mod Whole
