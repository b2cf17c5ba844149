-- ===== src/Lib.antt =====
-- A verification library for the C core of Trema, an OpenFlow controller framework.
--
-- Trema's processes share the library src/lib: lists, hash tables, buffers, message queues, the
-- table of flow matches, and the creation and the checks of OpenFlow messages. The switch manager,
-- one process for each switch (src/switch_manager), checks the messages that it receives, and keeps
-- tables of transaction ids and the lists of services that switch events go to; it and the packet-in
-- filter are clients of the tables of src/lib.
--
--   LinkedList    src/lib/linked_list.c: a chain of elements as the list of its data pointers
--   TableKey      the compare and hash functions that a hash table is given (src/lib/hash_table.h)
--   HashTable     src/lib/hash_table.c: buckets, index of the buckets that are not empty, iterator
--   Utility       src/lib/utility.c: the compare and hash functions
--   XidTable      src/switch_manager/xid_table.c: a client of HashTable
--   OpenFlow      constants and structures of OpenFlow 1.0 that the code uses
--   Match         src/lib/match.h, and the comparisons and the hash of src/lib/match_table.c
--   MatchTable    src/lib/match_table.c: a client of HashTable and LinkedList
--   MessageQueue  src/lib/message_queue.c
--   Buffer        src/lib/buffer.c
--   Actions       the checks of actions in src/lib/openflow_message.c
--   Message       the checks of whole messages, the error maps and normalize_match in
--                 src/lib/openflow_message.c, and the reading of matches and ports in
--                 src/lib/byteorder.c
--   Create        the creation of messages, the lists of actions and the counters in
--                 src/lib/openflow_message.c, and the writing of structures in src/lib/byteorder.c
--   Messenger     the buffers of src/lib/messenger.c, the push of a message to a send queue,
--                 get_send_data, and the messages that on_recv takes out of a receive queue
--   DpidTable     src/switch_manager/dpid_table.c: a client of HashTable
--   EventForward  src/switch_manager/event_forward_entry_manipulation.c: a client of LinkedList
--   Base, Bits    shared names, lists and tests; laws of the bit operations
--   Tests         runs at concrete inputs
--
-- Each C function is a definition of its own name. Pointers to data are numbers or values, and a
-- table that is changed in place is passed on as a new value. MatchTable models the memory of its
-- entries, since two tables and the caller hold pointers into it; Buffer models the bytes of its
-- block. A call that aborts the process, reads through NULL or writes outside its array returns
-- none. Assertions stand for what their callers keep, and mutexes are held over whole calls, so
-- operations come one after the other. Numbers of 16, 32 and 64 bits wrap where the code lets them.
--
-- A message that is read is a length and a function from the place of a byte to the byte, so a check
-- that reads behind the end of a message is modelled as it is; a message that is created is the list
-- of its bytes. The error numbers are a data type, and none stands for 0, which the last of them is.
--
-- Messenger keeps what calls of recv return as a list, after which they would block. A message is
-- pushed to the send queue that the source looks up or creates.
--
-- Loops over lists are structural. Some loops have fuel: the walk with an iterator, with more than the
-- number of entries; the search for a transaction id, with 2 ^ 32 rounds, more than the 4096 entries
-- that can be in its way; and the loops over actions, queues, properties and flow statistics, whose
-- results hold for every fuel, for some fuel, or for a round for each 8 bytes or each queue and one
-- more. The loops over the messages of a queue have fuel above their number.
--
-- Not modelled: sockets, timers, files, processes and logging; the reconnection and the contexts of
-- the messenger; the create functions of replies with statistics and queues; the packet parser, the
-- cookie table, the packet-in filter and the states of a switch connection; tremashark, the
-- management commands, the Ruby library and the examples.
pub mod Base
pub mod Bits
pub mod LinkedList
pub mod TableKey
pub mod HashTable
pub mod Utility
pub mod XidTable
pub mod OpenFlow
pub mod Match
pub mod MatchTable
pub mod MessageQueue
pub mod Buffer
pub mod Actions
pub mod Message
pub mod Create
pub mod Messenger
pub mod DpidTable
pub mod EventForward
pub mod Tests
