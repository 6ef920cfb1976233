-- ===== src/Tools.antt =====
-- project1/bin: the small filters that the shells run.
pub mod RemoveTag
pub mod Number
