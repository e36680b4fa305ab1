-- ===== src/GoBackN.antt =====
-- Practice-RDT/GBN: Go-Back-N over UDP and over TCP.
pub mod Packet
pub mod Input
pub mod Client
pub mod Created
pub mod Server
pub mod System
pub mod Udp
pub mod Tcp
pub mod Runs
