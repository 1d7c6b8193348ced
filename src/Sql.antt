-- ===== src/Sql.antt =====
-- sql.go: the interpreter of SQL statements, as far as it reads records without decoding them.
pub mod Raw
pub mod Convert
pub mod Where
