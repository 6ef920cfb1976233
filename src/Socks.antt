-- ===== src/Socks.antt =====
-- project4/socks_server.cpp: the SOCKS4 server. A connection's session parses the request, asks the
-- firewall and answers; CONNECT and BIND are then relayed.
pub mod Request
pub mod Firewall
pub mod Session
pub mod Flow
pub mod Bridge
pub mod Bind
