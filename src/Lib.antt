-- ===== src/Lib.antt =====
-- Marina monitors flows with a programmable switch. This library models its controller, the C
-- program under controller/.
--
-- The packet handler turns packets into messages for the thread of the flow database, which it
-- reads from a ring buffer, and DNS responses into messages for the DNS thread. The flow database
-- gives every flow an id from a heap of free ids, finds it again in a hash table of flows, and
-- groups flows into sessions with a second table; a third one holds the addresses of the servers
-- whose flows matter, which the DNS thread enters. Commands go through another ring buffer to the
-- data plane thread, which calls the driver of the switch. The ids index registers of the switch,
-- from which features are read.
--
-- Each file models the C file of its name:
--   Ringbuffer: controller/datastructures/mk_ringbuffer.h. The macro's item type and size are
--     parameters. Each critical section of the spin lock is one step, and each test outside it.
--     `Ringbuffer.run` takes the steps of all threads in any order, where one thread consumes and any
--     number put, as in the program; `act` is what a call does at the step at which it takes effect.
--     `ensure_put` goes by a schedule of its own steps and any calls of others between them, by
--     which it may wait for ever. Ringbuffer.Queue is the abstract queue, and
--     Ringbuffer.Steps has that the steps come to its calls.
--   Heap: controller/datastructures/heap.c. The bound HEAPSIZE of its array is not modelled.
--   Hashtable: the linear probing that flow_hashtable.c, session_hashtable.c and dns_hashtable.c of
--     controller/datastructures repeat, with its invariant (Hashtable.Chain), the finite map that a
--     table represents (Hashtable.Represents), the relation with the uses of its values
--     (Hashtable.Uses), and the number of cells that are taken (Hashtable.Capacity,
--     Hashtable.Keys).
--   FlowHashtable, SessionHashtable, DnsHashtable: the tables, with their own operations.
--   Structs: controller/datastructures/structs.h, the keys and the arithmetic of ids.
--   RuntimeConfig: controller/runtime_config/runtime_config.c.
--   Commands: the messages in the three ring buffers, dataplane_ringbuffer.h, packet_ringbuffer.h
--     and dns_ringbuffer.h of controller/datastructures.
--   BloomFilter: controller/datastructures/bloom_filter.c. BloomFilter.Maintenance is a round of its
--     maintenance thread, with the random draws as a parameter, BloomFilter.Sent the commands that it
--     puts, and BloomFilter.Hashes the hashes, from the bytes of `dp_five_tuple_t` and the functions
--     of Crc.
--   Crc: controller/datastructures/hashes/crc.c, with its tables. Crc.Checksums has the checksums
--     bit by bit, Crc.Xor the laws of the exclusive or.
--   FlowDb: controller/flow_db/flow_db.c. FlowDb.Thread is a round of its thread, FlowDb.Start the
--     set-up of the heaps and the tables, in which controller/controller.c has a part. FlowDb.Reach
--     has the states that the thread reaches, `Reachable`, as a data type of steps, and
--     FlowDb.Invariant what holds in all of them, `InOrder`.
--   DnsDb: controller/dns_db/dns_db.c, with the resolver library as a parameter.
--   PacketHandler: controller/packet_handler/packet_handler.c. A packet is a function from offsets
--     to bytes, beside the length of the capture. PacketHandler.Encode writes headers, as a
--     description of the formats that does not use the parser.
--   Features: controller/dataplane/features.c. Features.Registers has the registers that
--     features.h lists, and reads them through the functions of the driver, a parameter.
--   DpApi: controller/dataplane/dp_api.c, with the functions of the driver as a parameter.
--   Dataplane: controller/dataplane/dataplane.c, a round of its thread.
--     Dataplane.Mirror and MirrorSteps have the classification tables beside the flows that
--     commands have added, Dataplane.Follows sequences of commands.
--   System: these threads together. A step is a message for the flow database, a command for the
--     data plane thread, or one of the maintenance thread, on the ring buffer between them; the
--     conditions of a step say that nothing runs out. FlowDb.Tracks, FlowDb.TrackAdding and
--     FlowDb.TrackRemoving relate the commands that wait to the flows of the flow database.
--   SwitchSetup: controller/dataplane/prepare_dataplane.c and controller/port_config.h, with the
--     functions of the driver and the generated entries as parameters.
--   Export: controller/export/export_features.c without EXPORT_NUMPY: the lines that it writes, and
--     in Thread the loop, by readings of the clock.
--   Prelude: what the other modules share.
--
-- Arrays are functions of the index; an operation on global state takes the state and returns it.
-- `Option` around the result of an operation on a state is the fuel of its loop: `none` is a loop
-- that has not ended, in SwitchSetup an exit of the program. The loops of the hash tables have as
-- much fuel as there are cells: a search that has met every cell repeats itself. The loops of the
-- heap have one round more than there are entries; each round but the last goes down, or up, a
-- level. Theorems about `Returns` state that the loop ends.
--
-- MurmurHash3 is third-party code and a parameter, and so is the number of cells. Keys are zeroed
-- before they are filled, so that `memcmp` compares their fields. Memory barriers order the writes
-- for other threads, and have no part in a model whose steps follow each other in one order. Not modelled are the
-- drivers of the switch, the start of the threads, the pipe that the export writes to, libpcap,
-- logging, statistics, the benchmark, and the tests.
pub mod Prelude
pub mod Ringbuffer
pub mod Heap
pub mod Hashtable
pub mod Structs
pub mod SwitchSetup
pub mod System
pub mod FlowHashtable
pub mod DnsHashtable
pub mod SessionHashtable
pub mod RuntimeConfig
pub mod Commands
pub mod Crc
pub mod BloomFilter
pub mod FlowDb
pub mod PacketHandler
pub mod DnsDb
pub mod Features
pub mod DpApi
pub mod Dataplane
pub mod Export
