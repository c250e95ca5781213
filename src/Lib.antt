-- ===== src/Lib.antt =====
-- AGIOS: scheduling of I/O requests. A user adds requests to parts of files; the library keeps them in
-- queues, merges contiguous ones into virtual requests, and gives them back in the order of the
-- scheduling algorithm in use; the user then releases them. A request that waits can be cancelled.
--
-- The files, and what they model:
--   Data           agios_request.h: requests, queues, files
--   Requests       mylist.c, as sequences of requests
--   Links          mylist.c, on a store of links; the loops of list_of_requests_cleanup and of
--                  cleanup_performance_module
--   Aggregation    agios_add_request.c: request_constructor to insert_aggregations
--   Placement      req_hashtable.c: the insertion into a queue, hashtable_add_req
--   Files          agios_add_request.c: file structures and find_req_file
--   Hash           hash.c
--   Common         common_functions.c
--   Statistics     statistics.c
--   Process        process_request.c, agios_counters.c, generic_post_process
--   Performance    performance.c, and the part of agios_release_request that writes to it
--   Schedulers     scheduling_algorithms.c: the table and the functions that search it
--   State          the globals of the library together
--   Release        agios_release_request.c
--   Cancel         agios_cancel_request.c
--   Timeline       req_timeline.c
--   Waiting        waiting_common.c
--   Sjf, Twins     SJF.c: the search; TWINS.c: the windows and a round of the loop
--   Dispatch       TWINS.c and SJF.c: the loops, on the whole state
--   Quanta         MLF.c and aIOLi.c: selection by quantum, adjust_quantum
--   Fifo           aIOLi.c: the selection of a queue
--   Mlf            MLF.c: the main loop over the lines of the hashtable, and a session from
--                  agios_add_request to the callbacks
--   Aioli          aIOLi.c: the main loop, and the requests that a quantum covers
--   Loops          TO.c, NOOP.c and SW.c, under TO a session from agios_add_request to the
--                  callbacks, and agios_add_request under the schedulers with the hashtable
--   Entry          agios_add_request, hashtable_add_req and timeline_add_req on the whole state
--   Migration      data_structures.c: between hashtable and timeline; change_selected_alg
--   Locks          data_structures.c: acquire_adequate_lock against lock_all_data_structures
--   Thread         agios_thread.c
--   Startup        hashtable_init, timeline_init, allocate_data_structures
--   Config         agios_config.c: read_configuration_file, cleanup_config_parameters
--   Trace          trace.c
--   Cleanup        the structs that request_cleanup, hashtable_cleanup and timeline_cleanup free
--   Tests          concrete data, on which the theorems are applied
-- The child modules of a component hold its theorems, named for what they prove.
--
-- How the parts interact: Entry finds the file of a new request (Files, Hash), places it in a queue of
-- the file (Placement, which calls Aggregation) or in a timeline (Timeline), and counts it (Statistics,
-- Process). The schedulers (Sjf, Twins, Quanta, Waiting) choose requests, which Process gives to the
-- user. Release and Cancel take requests out of the dispatch queues and of the waiting queues. Thread
-- calls a scheduler in turn with its pauses, and Migration when the algorithm changes, under the locks
-- of Locks.
--
-- Correspondence:
--   - A doubly linked list is a sequence in list order, which Links shows for the calls on one list. A
--     request in two lists, or the use of a link of a request that has left its list, is not
--     expressible; where the source does the latter the function gives none (`swallowed` in
--     Aggregation, `settle` in Placement).
--   - A pointer to a file or queue is the handle and the type, as a file is never freed before
--     agios_exit. The field agg_head is never read and has no counterpart.
--   - Offsets, lengths and times are natural numbers. Counters and averages that go below 0 are
--     integers. The hash, sched_factor and the products with it wrap at their width; elsewhere the
--     source's arithmetic is taken to stay in range, since overflow of a signed integer has no meaning
--     in C. The clock is monotonic.
--   - malloc is an argument that says whether memory is given, and what it contains where fields are
--     read before they are written. A failed malloc in make_virtual_request, which the source does not
--     handle, is left out.
--   - The field sw_priority, which no code writes, is a parameter `stored`.
--   - The calls of agios_trace_add_request by agios_add_request are the list `traced` of the requests that
--     they are given; Trace has what such calls write.
--   - Functions run under the mutexes that they take, so each is one step. Locks has the interleavings
--     of any number of callers with the thread, lock by lock, for the one function in which a caller may
--     find another scheduler than the one it looked at.
--   - libconfig, the files, printf's numbers, malloc and the clock are parameters. What a parameter has
--     to satisfy stands in the theorems: in Trace, that the disk takes all that is written.
--   - Loops are structural recursion on the list they walk. `forget` in Performance has the counter
--     of the entries as fuel; each round lowers it. The loops in Loops, Dispatch, Links and the
--     search in Trace take fuel as an argument, and the theorems on them say how much is enough. So
--     does the loop of MLF, for which 64 rounds for each request are enough. Of the loops of SJF and
--     aIOLi there are theorems on a round: the loop of aIOLi need not end, as it goes on while no
--     request is covered by its quantum and no file waits. Thread takes the list of the turns that
--     there are until the thread is stopped.
--
-- Not modelled: the functions that print (print_hashtable, print_timeline, config_print and the like,
-- get_ns2s), the functions that only lock or unlock a mutex, the signals between threads, agios_init
-- and agios_exit, which call the parts in order, with the functions that only free a block of memory
-- apart from cleanup_config_parameters, and the test program, which is a client of the library. What
-- the whole loops of SJF and aIOLi conserve is not stated, and the counter of requests is not related
-- to what the data structures hold for cancels and for the loops of SJF, aIOLi and TWINS.
pub mod Aggregation
pub mod Aioli
pub mod Cancel
pub mod Cleanup
pub mod Common
pub mod Config
pub mod Data
pub mod Dispatch
pub mod Entry
pub mod Fifo
pub mod Files
pub mod Hash
pub mod Links
pub mod Locks
pub mod Loops
pub mod Migration
pub mod Mlf
pub mod Performance
pub mod Placement
pub mod Prelude
pub mod Process
pub mod Quanta
pub mod Release
pub mod Requests
pub mod Schedulers
pub mod Sjf
pub mod Startup
pub mod State
pub mod Statistics
pub mod Tests
pub mod Thread
pub mod Timeline
pub mod Trace
pub mod Twins
pub mod Waiting
