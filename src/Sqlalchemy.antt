-- ===== src/Sqlalchemy.antt =====
-- sqlalchemy/: the dialect's types and what it makes of updates.
pub mod Types
pub mod Compiler
pub mod Predicates
pub mod Ddl
pub mod Lists
pub mod Statements
pub mod Columns
pub mod Crud
pub mod Dialect
pub mod Calendar
pub mod Strptime
pub mod Times
