-- ===== src/Text.antt =====
-- Texts as byte lists, and what the sources use of <string>, <cstring> and <cstdlib>.
pub mod Bytes
pub mod Find
pub mod Decimal
pub mod Lines
pub mod Tokens
