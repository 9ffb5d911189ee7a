-- ===== src/Lib.antt =====
-- A model of the ACPLT/KS C++ communication library, with the theorems that make its parts correct.
--
-- Parts. plt/ holds base types and containers, ks/ the protocol library on top of it: names and
-- paths, masks, address sets, values, transports, servers and clients. Servers and clients call the
-- conversions, paths, masks and address sets below on what comes over the network.
-- - Base: shared names, Boolean tests, lists with native indices, signed integers, characters,
--   tables of evaluated facts, results that may be missing.
-- - Plt.Time: plt/include/plt/time.h and PltTime::sleep of plt/src/time.cpp. A time is a record of
--   two integers; each operator is a function, an assignment operator returns the new value.
--   Child modules: Micros (meaning), Normal (normalize), Arith, Compare, Sleep, Tests.
-- - Ks.Conversions: ks/include/ks/conversions.h and ks/src/conversions.cpp. A string is the list of
--   its bytes; each KS_RESULT is an outcome. Child modules: Hex, Percent, Decode, Encode, RoundTrip,
--   Tests.
-- - Ks.Mask: KsMask of ks/src/mask.cpp. n and m are passed and returned. Child modules: Range,
--   Progress, Endless, Literal, Tests.
-- - Ks.Path: KsPath of ks/include/ks/path.h and ks/src/path.cpp: the record has the class's members,
--   a function that may read out of bounds answers none then. Child modules: Names (paths as lists of
--   names), Parse, Element, Leading, Resolve, Context, Tests.
-- - Ks.AbsPath: KscAbsPath of ks/src/abspath.cpp, on top of Ks.Path. Child modules: Parts, Tests.
-- - Plt.PriorityQueue: PltPriorityQueue of plt/include/plt/priorityqueue_impl.h, over elements that
--   are compared by a number. Child modules: Cells (order and contents), Upheap, Downheap, Operations,
--   Removal, Tests.
-- - Ks.InAddrSet: the address sets of ks/include/ks/inaddrset.h and ks/src/inaddrset.cpp; the pointer
--   to the items may be to freed memory. Child modules: Rules, Freed, Tests.
-- - Plt.HashTable: PltHashTable_base of plt/include/plt/hashtable.h and plt/src/hashtable.cpp. Child
--   modules: Probe (the slots that collidx visits), Answers and Entries (looking up), Ending, Written
--   and Insertion (inserting), Tests.
-- - Ks.MemStream: the XDR memory streams of ks/src/xdrmemstream.cpp. The module's variables are a pool,
--   a stream is passed and returned. Child modules: Transfer (puts and gets), Socket (file descriptors),
--   Allocation, Creation, Memory, Writing, Putting, Reading, Rewinding, RoundTrip,
--   ReadCalls, FromFd, WriteCalls, ToFd,
--   PutLong, GetLong, Accounts and Life (the counters), Garbage, Tests.
-- - Ks.ConnectionMgr: KssConnectionManager of ks/src/connectionmgr.cpp, over connections, a clock and
--   answers of select that are parameters. Child modules: Registry (adding, removing, finding), Service
--   (serving, timing out, shutting down), Tracking, Sets, Adding and Serving (the sets of descriptors),
--   Timeouts and Queue (the list of timeouts), Counts, Keeping, Runs and Reach (what all operations keep,
--   and the states that they lead to), Null, Tests.
-- - Plt.LinkedList: the doubly linked lists of plt/include/plt/list.h, plt/include/plt/list_impl.h and
--   plt/src/list.cpp, over a store of nodes. Child modules: Links (which nodes make up a list), Inserting,
--   Unlinking, Values (what PltList does with values), Freeing (the destructor), Tests.
--
-- Bounds and fuel. A loop of normalize is given |tv_usec| / 1000000 + 1 rounds, one more than it can
-- take, since a round changes |tv_usec| by 1000000. A `long` is an unbounded integer, since its
-- overflow is undefined; `size_t` and `char` wrap as in the code. `char` is signed. The loops over
-- strings are structural recursion.
-- The mutual recursion of m_loop and joker in the masks runs on fuel, and none says that the fuel did
-- not suffice: the code may run for ever there. The fuel bounds how deep rounds and calls
-- are nested; each of them moves m on unless a set is at it, so that fuel above the length of the mask
-- is enough without sets.
-- The loops of the priority queue run in rounds, as many as the queue has elements, and one more, and
-- answer none if that is not enough; the node that they look at moves up or down in each round.
-- The loops of the hash table run in a_capacity + 7 rounds: behind six steps of the quadratic probe
-- collidx steps by one, so that every slot is passed within these rounds, and there is an empty one.
-- What addAssoc and removeAssoc compute in float is given by parameters.
-- The loops of the memory stream run in as many rounds as there are bytes to move, since each round
-- moves at least one.
-- trackCnxIoMode calls itself behind a fast write only; two calls are enough, since the second one finds
-- the connection writing already. The loops over the descriptors run as often as there are descriptors.
-- The rounds of processTimeout and the answers of select are given with a run.
-- The loops over a linked list run in as many rounds as the list has nodes.
--
-- Not modelled: the copy of the ONC RPC library (oncrpc/), services of the operating systems, the
-- parts listed as such in the manifest. What `new` and the clock answer are parameters.
pub mod Base
pub mod Plt
pub mod Ks
