-- ===== src/Ethdev.antt =====
-- src/ext/rte_ethdev.c: sending and receiving bursts of packets, the buffer that collects packets, and
-- the questions about a queue.
mod Tx
mod Rx
mod Queues
mod Laws
mod Received
mod Tests
