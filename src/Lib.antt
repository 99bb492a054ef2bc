-- ===== src/Lib.antt =====
-- libtpa is a user-space TCP/IP stack: applications link it, and each of their worker threads
-- runs tpa_worker_run (src/worker.c), which takes packets from the network card, feeds them to the
-- TCP receive path (src/tcp/tcp_input.c), runs the timers (include/timer.h, src/tcp/tcp_timeout.c) and
-- sends what the sockets have to send (src/tcp/tcp_output.c). This library models the receive path, the
-- writing and sending of data, the timeouts, the options, the local ports, and the data structures that they work on.
--
-- Base: numbers, Boolean tests, lists, and the wrap-around of uint8_t .. uint64_t.
-- Ring: a ring of slots read and written by free-running indices, and its windows as lists.
-- TcpQueue: the queues of a socket (include/tcp_queue.h). TcpQueue.Txq is `struct tcp_txq` with one
--   function per tcp_txq_ function, TcpQueue.Rxq is `struct tcp_rxq`. The Inv and Refine modules below
--   them have the invariant and the view of a queue as lists.
-- Tcp.Seq: seq_lt .. seq_ge (include/tcp.h).
-- Tcp.Rtt, Tcp.Cwnd: rtt_update, set_cwnd and update_cwnd (src/tcp/tcp_input.c).
-- Tcp.Sack: the SACK blocks that the receiver reports (sack_merge .. sack_regulate).
-- Tcp.Sock: `struct tcp_sock` (include/sock.h) and the operations on it that several handlers share.
-- Tcp.Ooo: tcp_rcv_enqueue, the out-of-order queue and tcp_rcv_data. Tcp.Ooo.Edge, Placed
--   and Stream show that the stream stays contiguous.
-- Tcp.Shed: tsock_drop_ooo_mbufs.
-- Tcp.Ack: ack_sent_data and what its two callers do with it.
-- Tcp.Recovery: tcp_rcv_sack, handle_fast_retransmit, tcp_retrans and tcp_fast_retrans. Its record Output
--   is the interface to the sending of segments (do_tcp_retrans and the xmit functions of
--   src/tcp/tcp_output.c, and tsock_accept), and KeepsState is what the receive path relies on.
--   Tcp.Xmit.State fills it with the functions of Tcp.Xmit and Tcp.FlagPkt on a port, and shows that they are so.
-- Dev: the queue of packets that wait for the card (include/dev.h), with the driver as a parameter.
-- Tcp.Header: prepend_tcp_hdr (src/tcp/tcp_output.c) on a packet that is a list of pieces of memory.
-- Tcp.FlagPkt: xmit_flag_packet, and the record Net of what the sending functions call.
-- Tcp.Xmit: xmit_one_packet, do_tcp_xmit_data, tcp_xmit_data and do_tcp_retrans. The modules below it follow the
--   data: Stream views the descriptors as the addresses of the bytes, Cores as what sending leaves alone, Filled
--   and Rounds are about the packet that is being filled, Keeps and One about one packet, Flow about the loop,
--   Ready, Rest and Data about one call of tcp_xmit_data after the other.
-- Tcp.Write: tsock_zwritev and tsock_write on a pool of descriptors (include/tx_desc.h), with the memory of packets
--   as a parameter. Tcp.Write.Adds, Carries and Loops follow the descriptors that are added, Result has the outcome of a
--   call, which keeps what Tcp.Xmit.Data needs.
-- Tcp.Establish: the negotiation of options and tsock_established. Tcp.AckIn: tcp_rcv_ack.
-- Tcp.Handlers: tcp_rcv_fastpath, process_incoming_seq, tcp_rcv_rst, tcp_rcv_fin and the handlers of
--   LISTEN and SYN_SENT. Tcp.Rcv: tcp_rcv_pkt. Tcp.Rcv.Diagram has the state
--   diagram, Tcp.Rcv.Window the segments outside the window.
-- Tcp.Options: parse_tcp_opts, and the options that are written (fill_opts of src/tcp/tcp_output.c).
--   Tcp.Options.Whole has the round trip.
-- Tcp.Timeout: tcp_timeout and the three timers of a socket (src/tcp/tcp_timeout.c). Its Retries follows a
--   timer that fires again and again.
-- FlexFifo: the fifos of a worker (include/flex_fifo.h), a ring and a list. FlexFifo.Refine has the invariant
--   and the view as one list, Push and Take the operations on it.
-- Timers: the timer wheel of a worker (include/timer.h), with the callbacks as a parameter. Timers.Due is about
--   when a timer fires, Timers.Process about the timers of a slot, Timers.Rounds about the loops.
-- SockTable: the table of sockets (include/sock_table.h), in SockTable.Refine as a map from keys.
-- Ports: the local ports (src/port_alloc.c): Ports has port_alloc, Ports.Block the blocks of 64, Ports.Bind
--   port_bind and port_unbind on the table of sockets. The kernel, malloc, the clock and the flow offload are
--   the record Ports.Os on a state of their own.
-- Tests: each theorem at a concrete input.
--
-- A uint16_t, uint32_t or uint64_t is a natural number with its wrap-around written out, and an int that
-- holds a difference of sequence numbers is its bit pattern. The array behind a queue is a function from
-- the slot to its content. A list stands for a tail queue of packets; a freed packet is dropped. A timer
-- of a socket is the deadline that it was started with, in microseconds: the rounding of timer_start to slots of
-- 100 ms is part of the wheel alone. Loops are structural recursions over the lists that they walk, or on the number of
-- tries that the source counts, but for three over the descriptors of the send queue and the parser of
-- options: ack_sent_data, tcp_rcv_sack and clear_sacked run on fuel, the number of descriptors and one, which
-- is enough since each round moves on by a descriptor and none is behind the last, and parse_tcp_opts on the
-- number of bytes, which each round makes fewer. The two loops of xmit_one_packet have the same fuel as
-- ack_sent_data: all rounds of the second but the last finish a descriptor. The loop of
-- write_one_iov has the free descriptors and one as fuel: each round takes one, and with none left it fails as the code does. The
-- rounds of timer_process, and the timers that one of them fires, are two more fuels, and the result says when one
-- of them is not enough, since a callback can keep the loops of the source busy for ever. Timers.Rounds has
-- callbacks for which there is enough of both.
--
-- Not modelled: statistics, traces and logs; the worker's counts of mbufs; the chain of mbufs behind
-- a packet; memory barriers, since each queue has one owner here; the rest of the device and DPDK code,
-- configuration and the command shell; the merging of packets and the loop of tcp_input; the
-- rest of the output path (tcp_close, xmit_syn, tcp_output); what the calls of Output in one
-- step leave on the port for each other; tsock_free is a flag of the result of a timeout.
pub mod Base
pub mod Ring
pub mod SockTable
pub mod Timers
pub mod FlexFifo
pub mod Ports
pub mod Dev
pub mod TcpQueue
pub mod Tcp
pub mod Tests
