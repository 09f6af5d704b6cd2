-- ===== src/Lib.antt =====
-- The verification library of a user-mode memory manager that simulates demand paging on Windows.
--
-- User threads fault on the pages of one virtual region. A fault on a page that is still in memory
-- is a soft fault: the page is taken off the modified or the standby list, or out of a batch of the
-- writer. Any other fault is a hard fault: a frame is taken from the thread's cache,
-- the free lists or the standby list, and is filled from the page file or with zeros. The trimmer
-- moves valid pages to the modified list; the writer copies modified pages to slots of the page
-- file and moves them to the standby list; the pruner, in a build that has it on, deals standby pages
-- to the free lists. The threads meet in the page table entries, the page
-- frame records and their locks, the page lists and the page file's bitmaps.
--
-- The files, and the code that each models:
--   Base           helpers: Boolean tests, the fallible steps, lists, the store of cells
--   Config         utils/config.h, threads/threads.h: constants and the VM record
--   Pte            data_structures/pte.h, pte.c: the entry, its formats and their moves. Its
--                  children are on the 64-bit word, the formats, the addresses, the accessed bit
--   Locks          data_structures/locks.h, locks.c: the byte lock and its delays; Mutex and
--                  Progress are on many threads at one lock, an access to memory at a time
--   Pfn            data_structures/pfn.h, pfn.c: page frame records, in a store by address
--   PageList       data_structures/page_list.h, page_list.c: the rings of records. Edit, Splice and
--                  Cut are on the writes of links; Attempts, Locked and Batch are the routines that
--                  take page locks; Tries, Commute and Joins are on their loops, Publish on a
--                  batch that joins a list; OnFault is on the removal on a soft fault; Exclusive,
--                  Widen, Ends, Shared and FirstTry are on the batch routines; Queue is on the list
--                  as a queue
--   Disk           data_structures/disk.h, disk.c: bitmaps, slot stack, the search for free slots
--   System         the state that the threads share
--   FreeLists      page_list.c, page_fault_handler.c: the free lists and a thread's cache
--   FaultHandler   threads/page_fault_handler.c
--   Trimmer        threads/trimmer.c: one run of `trim_pages`. Walk, Visit, Taken and Scan are on the
--                  walk over the entries, Gather, Join, Unlock and Publish on the batch, Run on the whole
--   Writer         threads/writer.c: one run of `write_pages`. Slots is on the slots reserved, Gather,
--                  OneRound and Rounds are on the batch taken, OnePage and Pages on its writes, Race on a
--                  page that is faulted back meanwhile, Publish on the standby list, Staged, Stage and Run on the whole
--   Pruner         threads/pruner.c: one run of `prune_pages`. Sent is on the loop over the batch, Lost
--                  on a run that finds no list to fill, Marks on the bits, Fill, Share, Deal, Step and
--                  Dealt on the loop over the lists, Taken and Run on the whole
--   Initializer    threads/initializer.c: the state that a run starts with; Deal, Dealt and Start
--                  are on the frames and the lists, Fill, Caches and Threads on the threads'
--                  first caches, Counts on the number of free pages, First on the first fault behind the start
--   Random         utils/utils.c: the random addresses of the simulated workload
--   Simulator      threads/simulator.c: the accesses of a simulated user thread
--   Tests          runs at concrete inputs
--
-- Names are those of the source in lower case, so `set_PTE_to_valid` is `set_pte_to_valid`. An
-- address of a page frame record is its frame number, heads of lists have larger addresses; an
-- entry is known by its index in the page table; a page's contents are one number. A w-bit counter
-- is kept modulo 2 ^ w. `none` is a failed ASSERT, or a wait for a lock that is held and that nobody
-- gives back. Routines that a thread runs between two waits run undisturbed; what other threads do
-- at the waits is a parameter (`others`, `meanwhile`), as are the outcomes of attempts at the SRW
-- locks of Windows (`shared`) and the estimate, in floating point, that a list runs low.
--
-- Loops that may spin take fuel: the handler's own loop and the search for a page. Two rounds are
-- enough where the theorems on the handler say so. The attempts at a list are 30, as in the source;
-- the loop that gathers a batch for writing takes the target and the five misses that end it.
--
-- Not modelled: the mapping of addresses, allocation, thread creation, events that are waited for,
-- clocks, logging, the DEBUG checks, the scheduler's statistics, the end of the program, and, of its
-- start, the calls of Windows. The loops of the trimmer's, the writer's and the pruner's threads are
-- left out too: they wait for an event, call the run that is modelled, take times and, but for the
-- trimmer's, first signal the thread that refills the list they take from if it is about to run low.
pub mod Base
pub mod Config
pub mod Pte
pub mod Locks
pub mod Pfn
pub mod PageList
pub mod Disk
pub mod System
pub mod FreeLists
pub mod FaultHandler
pub mod Initializer
pub mod Trimmer
pub mod Writer
pub mod Pruner
pub mod Random
pub mod Simulator
pub mod Tests
