-- ===== src/Startup.antt =====
-- The start of the data structures: hashtable_init of req_hashtable.c, timeline_init of req_timeline.c
-- and allocate_data_structures of data_structures.c. `none` stands for the result false.
pub mod Ready
use forwarding_explorer_agio.Prelude.{
  ℕ, suc, Bool, ◌&&◌, Option, none, some, List, [], replicate, if◌then◌else◌, ltb,
}
use forwarding_explorer_agio.Prelude.Int.{ℤ, pos}
use forwarding_explorer_agio.Data.{Requests, nil, File}
use forwarding_explorer_agio.Hash.{agios_hash_entries}
use forwarding_explorer_agio.State.{Agios}
use forwarding_explorer_agio.Statistics.{reset_global_stats}

-- The memory that there is, for the lines, the locks and the counters of the hashtable and for the
-- queues of TWINS.
pub record Memory : Type 0 where
  pub hashlist : Bool
  pub hashlist_locks : Bool
  pub hashlist_reqcounter : Bool
  pub multi_timeline : Bool

unfoldable pub hashtable_init : Memory → Agios → Option Agios
hashtable_init m a =
    if m.hashlist && m.hashlist_locks && m.hashlist_reqcounter
    then some (record a {
      hashlist = replicate agios_hash_entries [];
      counters = record (a.counters) { hashlist_reqcounter = replicate agios_hash_entries (pos 0) };
    })
    else none

-- Without queues for TWINS the multi_timeline stays what it was.
unfoldable pub timeline_init : Memory → (max_queue_id : ℕ) → Agios → Option Agios
timeline_init m max_queue_id a =
    let b : Agios = record a { timeline = nil } in
    if ltb 0 max_queue_id
    then if m.multi_timeline
      then some (record b { multi_timeline = replicate (suc max_queue_id) nil })
      else none
    else some b

abbrev pub without_counts : Option Agios → Option Agios
without_counts none = none
without_counts (some a) =
    some (record a {
      counters = record (a.counters) { current_reqnb = pos 0; current_filenb = pos 0 };
    })

abbrev pub init_hashtable : Memory → Option Agios → Option Agios
init_hashtable m none = none
init_hashtable m (some a) = without_counts (hashtable_init m a)

-- All locks are then held, until the thread has chosen the algorithm.
unfoldable pub allocate_data_structures : Memory → (max_queue_id : ℕ) → Agios → Option Agios
unfolding hashtable_init timeline_init
allocate_data_structures m max_queue_id a =
    init_hashtable m
      (timeline_init m max_queue_id (record a { statistics = reset_global_stats a.statistics }))
