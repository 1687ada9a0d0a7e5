-- ===== src/Sqla.antt =====
-- The repositories over SQL: src/evenkeel/infrastructure/adapters/sqla/ and the tables of
-- src/evenkeel/infrastructure/sqla/tables.py. A statement is read as what SQL says that it does to
-- the rows of a table; a NUMERIC(20, 2) column holds whole cents.
pub mod Cursor
pub mod Paging
pub mod Tables
pub mod Wallets
pub mod Entries
pub mod Reconciled
