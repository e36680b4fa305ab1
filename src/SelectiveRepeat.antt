-- ===== src/SelectiveRepeat.antt =====
-- Practice-RDT/SR/UDP_selectiverepeat: Selective Repeat from a client over two relays to a server.
pub mod Packet
pub mod Client
pub mod Server
pub mod Relay
mod Tests
