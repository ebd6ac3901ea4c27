-- ===== src/Lib.antt =====
-- The C extension of dpdk.cr, modelled and verified.
--
-- dpdk.cr binds DPDK, a toolkit for packet processing in user space, for the language Crystal. What
-- DPDK's headers define as inline functions Crystal cannot call, so the repository keeps its own copies of
-- those headers as C files in src/ext, edited so that they are compiled, adds functions of its own to
-- them, and builds the library libdpdk.a. This development models that C code.
--
-- The parts and the files that model them:
--
-- Common and the modules below it: lists, tables (C arrays as functions of the index), 16- and 32-bit
-- words with the wrap-around written out, and masks as remainders and quotients.
--
-- Ring: src/ext/rte_ring.c and src/ext/rte_ring_extra.c, the queue of pointers that packets are handed
-- from one core to another by. Types holds `struct rte_ring` with its two pairs of head and tail, Copy
-- the macros ENQUEUE_PTRS and DEQUEUE_PTRS with their loops unrolled by four and their second branch at
-- the end of the slots, Ops `__rte_ring_do_enqueue` and `__rte_ring_do_dequeue` and the public functions
-- over them, Count the counters, and Peek the repository's own functions by which a single consumer looks
-- at objects in place and gives the slots back later, with the Crystal macro of src/dpdk/inlines.cr that
-- does both round a block. The functions that move a head and publish a tail stand in DPDK's
-- rte_ring_generic.h, which is not in the repository: they are the record Generic in Ring/Generic, with
-- what that header documents as IsGeneric, and Ring/Tests has functions that satisfy it. Queue is the
-- abstract view, a list bounded by the capacity, and Refine relates any sequence of calls on a ring to
-- one on a queue. Calls are taken one after the other: what two cores do at the same time inside a call
-- is not modelled, only the order in which a peek, other calls and the release follow each other.
--
-- Memcpy: src/ext/rte_memcpy.c in its three variants. Memory has memory as the byte at each address, the
-- vector loads, stores and shifts, and the plain copy; Variant has what the variants share, and what one
-- of them defines as a record, over which `rte_memcpy_aligned` and `rte_memcpy` are; Sse, Avx2 and Avx512
-- have one definition for each function and each label of the source, and Machine the choice between
-- them. Laws follows a copy under way from label to label. A loop has as fuel the number of bytes that
-- are left, and each round copies at least one vector. Addresses do not wrap.
--
-- Lcore: src/ext/rte_lcore.c, the logical cores. Config has the state that is read, Next
-- `rte_get_next_lcore` and the loops of RTE_LCORE_FOREACH. RTE_MAX_LCORE is a parameter. Without a wrap
-- more rounds than there are lcores are enough; with a wrap as many rounds as lcores, if there is
-- something to find. Laws/Wanted says which lcores a search is for, apart from the test of its loop.
--
-- Lpm: src/ext/rte_lpm.c, the longest prefix match. Lookup reads entries as the 32-bit words that the
-- source reads; Fields lays the fields of an entry out in such a word.
--
-- Mbuf: src/ext/rte_mbuf.c, packets. Heap has `struct rte_mbuf` and the mbuf at each address, so
-- that segments can be shared and linked as in the source; Segment has the functions that walk to
-- the last segment and move either end of the data. A walk has as fuel the number of segments that
-- it may visit: it is enough to have as many as the packet has. The builds are those without
-- RTE_LIBRTE_MBUF_DEBUG, where the checks are empty. A packet is well formed (IsPacket in
-- Mbuf/Laws/Packet) when its segments are all different and end with NULL, the data of each lie in
-- its buffer, and the counts in its head agree with them. Read has `rte_pktmbuf_read`, Offload
-- `rte_validate_tx_offload`, and Linearize `rte_pktmbuf_linearize` over the memory and the copy of
-- Memcpy for any machine, with as fuel more than the segments it frees. Refcnt has the reference
-- counters of both builds, Alloc the reset of one mbuf or many, where the loop needs as fuel more
-- rounds than a fourth of the mbufs, Free attaching, detaching and freeing, and Clone cloning, where
-- the list of the mbufs that the pool has left stands for the pool: the mempool library is not in
-- the repository, so what it has allocated and its private data are parameters, and mbufs given back
-- to it are recorded as calls, in order. rte_mbuf_data_iova, rte_mbuf_to_baddr and rte_is_ctrlmbuf,
-- which only read, are left out.
--
-- Ethdev: of src/ext/rte_ethdev.c, the functions on bursts of packets and on queues, in the build without
-- RTE_LIBRTE_ETHDEV_DEBUG. Tx has `rte_eth_tx_burst` with its callbacks, and the buffer that collects
-- packets and flushes them when it is full; Rx has `rte_eth_rx_burst` with its callbacks, and Queues
-- `rte_eth_tx_prepare` and the functions that ask the driver about a queue or a descriptor. The driver
-- and the callbacks are parameters, since they stand in DPDK's drivers and in the program that uses
-- them; the packets that the driver and the error callback are given are recorded in order.
--
-- System: the calls of the operating system and of DPDK that the files for network interfaces make. A
-- run is a sequence of calls, and a kernel, a parameter, answers each by all that went before; a run
-- returns, exits with the message of perror_exit, or has used up the fuel of a loop. Laws has the
-- postconditions of such runs with their rules for the do blocks.
--
-- Netlink: src/ext/ext_netlink.c, which src/ext/tap_netlink.c repeats up to add_route, and
-- src/ext/netlink.c. Requests are memory as the byte at each offset, in the layout and with the numbers
-- that Linux documents for its interface (Uapi). Attributes has nlattr_add, Socket the socket of a
-- request, Addresses, Routes and Setup the functions that are called from outside, Link those of
-- src/ext/netlink.c. Reader is the receiver's side, the walk over the attributes that Linux documents.
-- The loop of setup_routes has `nb_routes` as fuel, and makes half as many rounds; its `int` does
-- not overflow for fewer than 2^31 entries, and an overflow is put down as a loop that does not end.
--
-- Tap: src/ext/tap.c. Kni: src/ext/kni.c, where what DPDK says of its ports is the record Ports and the
-- endless loop of kni_create takes fuel.
--
-- Not modelled: what src/ext only declares (creation, deletion, dumping), log lines, the sample packets
-- of src/ext/fixtures.h, and the Crystal bindings, examples and specs.
pub mod Common
pub mod Ethdev
pub mod Kni
pub mod Lcore
pub mod Lpm
pub mod Mbuf
pub mod Memcpy
pub mod Netlink
pub mod Ring
pub mod System
pub mod Tap
