-- ===== src/Companies/Preserves.antt =====
-- The operations of Companies/Crud.antt keep the tables valid, whether they return or raise.
pub mod Create
pub mod Update
pub mod Delete
