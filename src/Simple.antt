-- ===== src/Simple.antt =====
-- project2/np_simple.cpp: the shell server for one client at a time, and its numbered pipes.
pub mod Line
pub mod Table
pub mod Child
pub mod Exec
