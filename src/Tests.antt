-- ===== src/Tests.antt =====
-- Tests on concrete inputs and instances of the theorems.
mod Socks
mod Relays
mod Tools
mod Hall
mod Chat
mod Shell
mod Web
mod Shared
mod Simple
mod Commands
