-- ===== src/TcpQueue.antt =====
-- The two queues of a tcp_sock: include/tcp_queue.h.
pub mod Txq
pub mod Rxq
