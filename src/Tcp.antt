-- ===== src/Tcp.antt =====
-- The TCP engine: include/tcp.h, include/sock.h and src/tcp.

pub mod Seq
pub mod Sack
pub mod Rtt
pub mod Cwnd
pub mod Sock
pub mod Ooo
pub mod Ack
pub mod Recovery
pub mod Establish
pub mod AckIn
pub mod Shed
pub mod Handlers
pub mod Rcv
pub mod Timeout
pub mod Options
pub mod Header
pub mod FlagPkt
pub mod Xmit
pub mod Write
