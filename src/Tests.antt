-- ===== src/Tests.antt =====
-- Runs of the models on concrete inputs, and each theorem at an input that meets its hypotheses.
mod Queues
mod Tcp
mod Stream
mod Receive
mod Ports
mod Timeouts
mod Options
mod Fifo
mod Timers
mod Xmit
mod Write
