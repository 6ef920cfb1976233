-- ===== src/Shared.antt =====
-- project2/np_multi_proc.cpp: the chat shell server with one process for each user. The users and their
-- messages stand in memory that the processes share.
pub mod State
pub mod Mailbox
pub mod Users
pub mod Fifo
pub mod Child
pub mod Exec
pub mod Reach
pub mod Delivery
