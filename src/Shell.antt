-- ===== src/Shell.antt =====
-- project1/npshell.cpp: how a line is cut into commands, and the stack of pipes that leads the output
-- of one command to a later one. Pipes are numbered in the order in which they are made.
pub mod Scan
pub mod Stack
