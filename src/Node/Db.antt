-- ===== src/Node/Db.antt =====
-- storage/database.py.
pub mod Accounts
pub mod Blocks
pub mod Persist
pub mod Frame
pub mod Rows
