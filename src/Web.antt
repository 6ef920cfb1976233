-- ===== src/Web.antt =====
-- project3: the HTTP server that starts CGI programs, and the console that talks to shells.
pub mod Request
pub mod Console
pub mod Proxy
pub mod Screen
pub mod Client
