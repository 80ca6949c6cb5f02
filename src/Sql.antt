-- ===== src/Sql.antt =====
-- src/sql: the lexical layer that masking and ID substitution share.
pub mod Lex
