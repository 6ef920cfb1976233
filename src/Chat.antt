-- ===== src/Chat.antt =====
-- project2/np_single_proc.cpp: the chat shell server that serves all users in one process.
pub mod State
pub mod Env
pub mod Invariant
pub mod Login
pub mod Talk
pub mod UserPipe
pub mod Reach
pub mod Jobs
pub mod Command
pub mod Exec
