-- ===== src/Netconsole.antt =====
-- internal/netconsole/netconsole.go: the console protocols that are spoken over the network.
pub mod Rcon
pub mod Buffers
pub mod Frames
pub mod SourceSession
pub mod Authentication
pub mod Telnet
