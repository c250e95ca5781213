-- ===== src/Migration.antt =====
-- data_structures.c: all requests move from the hashtable to the timeline or back, and
-- `change_selected_alg` of scheduling_algorithms.c. A request that moves has been deleted from its
-- list; each loop over a list moves all of it, so that the list is empty in the end.
pub mod ToTimeline
pub mod Lines
pub mod ToHashtable
use forwarding_explorer_agio.Prelude.{
  ℕ, Bool, true, false, ◌&&◌, ◌||◌, not, Option, none, some, List, [], ◌∷◌, ◌==◌, ltb, leb,
  if◌then◌else◌,
}
use forwarding_explorer_agio.Prelude.Int.{ℤ}
use forwarding_explorer_agio.Data.{Request, request, Requests, nil, cons, fields, Queue, File}
use forwarding_explorer_agio.Entry.{hashtable_add_req, mode, timelines, set_timelines}
use forwarding_explorer_agio.Hash.{get_hashtable_position}
use forwarding_explorer_agio.Schedulers.{
  Init, IoScheduler, initialize_scheduler, noop_scheduler, sw_scheduler, twins_scheduler,
}
use forwarding_explorer_agio.State.{Agios, file_of}
use forwarding_explorer_agio.Timeline.{Mode, Timelines, timeline_place, reorder_timeline}

-- A virtual request, where the new scheduler takes none.
abbrev pub is_split : (max_aggreg_size : ℕ) → Request → Bool
is_split max_aggreg_size req = ltb 1 (fields req).reqnb && leb max_aggreg_size 1

unfoldable mutual
  pub put_this_request_in_timeline : (stored : Request → ℤ) → Mode → Request → Timelines → Timelines
  put_this_request_in_timeline stored m (request f subs) t =
      let parts = put_all_requests_in_timeline stored m subs t in
      if is_split m.max_aggreg_size (request f subs)
      then parts
      else timeline_place stored true m (request f subs) t

  pub put_all_requests_in_timeline :
      (stored : Request → ℤ) → Mode → Requests → Timelines → Timelines
  put_all_requests_in_timeline stored m nil t = t
  put_all_requests_in_timeline stored m (cons r q) t =
      put_all_requests_in_timeline stored m q (put_this_request_in_timeline stored m r t)

-- The queues of a file, emptied.
abbrev pub without_requests : File → File
without_requests f = record f {
  read_queue = record (f.read_queue) { list = nil };
  write_queue = record (f.write_queue) { list = nil };
}

unfoldable pub migrate_file : (stored : Request → ℤ) → Mode → File → Timelines → Timelines
unfolding put_all_requests_in_timeline
migrate_file stored m f t =
    put_all_requests_in_timeline stored m f.write_queue.list
      (put_all_requests_in_timeline stored m f.read_queue.list t)

unfoldable pub migrate_line :
    (stored : Request → ℤ) → Mode → List File → Timelines → List File × Timelines
unfolding migrate_file
migrate_line stored m [] t = ([], t)
migrate_line stored m (f ∷ fs) t =
    let rest = migrate_line stored m fs (migrate_file stored m f t) in
    (without_requests f ∷ rest.0, rest.1)

unfoldable pub migrate_lines :
    (stored : Request → ℤ) → Mode → List (List File) → Timelines → List (List File) × Timelines
unfolding migrate_line
migrate_lines stored m [] t = ([], t)
migrate_lines stored m (l ∷ ls) t =
    let one = migrate_line stored m l t in
    let rest = migrate_lines stored m ls one.1 in (one.0 ∷ rest.0, rest.1)

unfoldable pub migrate_from_hashtable_to_timeline :
    (stored : Request → ℤ) → (config_sw_size : ℕ) → Agios → Agios
unfolding migrate_lines
migrate_from_hashtable_to_timeline stored size a =
    let moved = migrate_lines stored (mode size a) a.hashlist (timelines a) in
    record (set_timelines moved.1 a) { hashlist = moved.0 }

abbrev pub and_then : Option Agios → (Agios → Option Agios) → Option Agios
and_then none k = none
and_then (some a) k = k a

-- A request goes into the hashtable, with the file that it belongs to.
abbrev pub add_known : Request → Agios → Option File → Option Agios
add_known req a none = none
add_known req a (some f) =
    hashtable_add_req none req (get_hashtable_position (fields req).file_id) (some f) a

-- `none` is a write through a link that is no longer valid, or a request without a file.
unfoldable mutual
  pub put_req_in_hashtable : Request → Agios → Option Agios
  put_req_in_hashtable (request f subs) a =
      let parts = put_all_requests_in_hashtable subs a in
      if is_split a.current_scheduler.max_aggreg_size (request f subs)
      then parts
      else add_known (request f subs) a (file_of f.file_id a)

  pub put_all_requests_in_hashtable : Requests → Agios → Option Agios
  put_all_requests_in_hashtable nil a = some a
  put_all_requests_in_hashtable (cons r q) a =
      and_then (put_req_in_hashtable r a) (put_all_requests_in_hashtable q)

unfoldable pub migrate_from_timeline_to_hashtable : Agios → Option Agios
unfolding put_all_requests_in_hashtable
migrate_from_timeline_to_hashtable a =
    put_all_requests_in_hashtable a.timeline (record a { timeline = nil })

abbrev pub with_timelines : Agios → Option Timelines → Option Agios
with_timelines a none = none
with_timelines a (some t) = some (set_timelines t a)

-- The data structures after the algorithm has changed from `previous_alg`, whose scheduler used the
-- hashtable or not.
unfoldable pub migrate :
    (stored : Request → ℤ)
    → (config_sw_size previous_alg : ℕ) → (previous_needs_hashtable : Bool) → Agios
    → Option Agios
unfolding migrate_from_hashtable_to_timeline migrate_from_timeline_to_hashtable
migrate stored size previous_alg previous_needs_hashtable a =
    let needs_hashtable = a.current_scheduler.needs_hashtable in
    if needs_hashtable && previous_needs_hashtable
    then some a
    else if previous_needs_hashtable && not needs_hashtable
    then some (migrate_from_hashtable_to_timeline stored size a)
    else if not previous_needs_hashtable && needs_hashtable
    then migrate_from_timeline_to_hashtable a
    else if not (a.current_alg == noop_scheduler)
        && (previous_alg == sw_scheduler
            || a.current_alg == sw_scheduler
            || a.current_alg == twins_scheduler
            || previous_alg == twins_scheduler)
    then with_timelines a (reorder_timeline stored (mode size a) (timelines a))
    else some a

abbrev pub migrate_to :
    (stored : Request → ℤ)
    → (config_sw_size new_alg : ℕ) → Agios
    → Option IoScheduler
    → Option Agios
migrate_to stored size new_alg a none = none
migrate_to stored size new_alg a (some s) =
    migrate stored size a.current_alg a.current_scheduler.needs_hashtable
      (record a { current_alg = new_alg; current_scheduler = s })

-- `run` is the outcome of the initialisation function of the new scheduler. `none` is also the use of
-- the NULL that `initialize_scheduler` returns.
unfoldable pub change_selected_alg :
    (stored : Request → ℤ)
    → (config_sw_size : ℕ) → (run : Init → Bool) → List IoScheduler
    → (new_alg : ℕ) → Agios
    → Option Agios
unfolding migrate initialize_scheduler
change_selected_alg stored size run table new_alg a =
    if a.current_alg == new_alg
    then some a
    else migrate_to stored size new_alg a (initialize_scheduler run table new_alg)
