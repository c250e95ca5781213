-- ===== src/Entry.antt =====
-- Where a request enters: `hashtable_add_req` of req_hashtable.c, `__timeline_add_req` of
-- req_timeline.c with the file that it finds, and `agios_add_request`.
use forwarding_explorer_agio.Prelude.{
  ℕ, Bool, true, false, Option, none, some, List, [], ◌∷◌, ◌++◌, ◌==◌, if◌then◌else◌,
}
use forwarding_explorer_agio.Prelude.Int.{ℤ, pos, ◌+ℤ◌}
use forwarding_explorer_agio.Data.{FileId, Request, fields, File}
use forwarding_explorer_agio.Aggregation.{request_constructor}
use forwarding_explorer_agio.Files.{Found, find_req_file, set_file}
use forwarding_explorer_agio.Hash.{get_hashtable_position}
use forwarding_explorer_agio.Placement.{add_to_queue}
use forwarding_explorer_agio.Process.{
  Step1, modify, on_queue, queue_of, inc_current_reqnb, process_requests_step1, Callback,
  process_requests_step2, generic_post_process,
}
use forwarding_explorer_agio.Schedulers.{noop_scheduler}
use forwarding_explorer_agio.State.{Agios, line, set_line, file_of, put_file}
use forwarding_explorer_agio.Statistics.{GlobalState, statistics_newreq}
use forwarding_explorer_agio.Timeline.{Mode, Timelines, timeline_place}

abbrev pub stamp_first : Request → File → File
stamp_first req f =
    if f.first_request_time == 0
    then record f { first_request_time = (fields req).arrival_time }
    else f

abbrev pub opened : Request → ℕ → Agios → Option (Found × ℤ) → Option (File × Agios)
opened req hash a none = none
opened req hash a (some (r, filenb)) =
    let f = stamp_first req r.req_file in
    let b = set_line hash (set_file f r.line) a in
    some (f, record b { counters = record (b.counters) { current_filenb = filenb } })

-- The file of a new request, found or made, with the time of its first request.
unfoldable pub open_file : (memory : Option File) → Request → ℕ → Agios → Option (File × Agios)
unfolding find_req_file
open_file memory req hash a =
    opened req hash a
      (find_req_file memory (line hash a) (fields req).file_id a.counters.current_filenb)

-- The queue of the file takes the request in. `none` is the write through an insertion place that
-- has left the queue.
unfoldable pub add_to_file : Request → File → Agios → Option Agios
unfolding put_file
add_to_file req f a =
    elim (add_to_queue a.current_scheduler.max_aggreg_size req (queue_of (fields req).type f).list
      a.g_last_timestamp) [
        | none ↦ none
        | some (q, g) ↦
            let f' = on_queue (fields req).type (λ x. record x { list = q }) f in
            some (record (put_file f' a) { g_last_timestamp = g })
      ]

-- `given` is the file of a request that comes from the timeline, and `none` for a new request.
unfoldable pub hashtable_add_req :
    (memory : Option File) → Request → ℕ → (given : Option File) → Agios → Option Agios
unfolding open_file add_to_file
hashtable_add_req memory req hash (some f) a = add_to_file req f a
hashtable_add_req memory req hash none a = elim (open_file memory req hash a) [
  | none ↦ none
  | some (f, b) ↦ add_to_file req f b
]

abbrev pub mode : (config_sw_size : ℕ) → Agios → Mode
mode config_sw_size a = record {
  current_alg = a.current_alg;
  max_aggreg_size = a.current_scheduler.max_aggreg_size;
  config_sw_size = config_sw_size;
}

abbrev pub timelines : Agios → Timelines
timelines a = record {
  this_timeline = a.timeline;
  multi_timeline = a.multi_timeline;
  g_last_timestamp = a.g_last_timestamp;
}

abbrev pub set_timelines : Timelines → Agios → Agios
set_timelines t a = record a {
  timeline = t.this_timeline;
  multi_timeline = t.multi_timeline;
  g_last_timestamp = t.g_last_timestamp;
}

abbrev pub place_new :
    (stored : Request → ℤ) → (config_sw_size : ℕ) → Request → Option (File × Agios) → Option Agios
place_new stored size req none = none
place_new stored size req (some (f, b)) =
    some (set_timelines (timeline_place stored false (mode size b) req (timelines b)) b)

unfoldable pub timeline_add_req :
    (stored : Request → ℤ)
    → (config_sw_size : ℕ) → (memory : Option File) → Request
    → ℕ
    → (given : Option File) → Agios
    → Option Agios
unfolding open_file timeline_place
timeline_add_req stored size memory req hash (some f) a =
    some (set_timelines (timeline_place stored true (mode size a) req (timelines a)) a)
timeline_add_req stored size memory req hash none a =
    place_new stored size req (open_file memory req hash a)

-- What the user passes to `agios_add_request`, and what the call meets: the time, and under NOOP the
-- time of the dispatch, the memory for the request and for the file, and the contents of the fields
-- `sw_priority`.
pub record Arrival : Type 0 where
  pub file_id : FileId
  pub type : ℕ
  pub offset : ℕ
  pub len : ℕ
  pub identifier : ℕ
  pub queue_id : ℕ

pub record Environment : Type 0 where
  pub now : ℕ
  pub now_dispatched : ℕ
  pub request_memory : Bool
  pub file_memory : Option File
  pub stored : Request → ℤ
  pub config_sw_size : ℕ
  pub config_trace_agios : Bool
  pub has_list_cb : Bool

-- The file and the statistics with the new request counted.
abbrev pub count_in : Request → File → GlobalState → File × GlobalState
count_in req f statistics =
    let q = queue_of (fields req).type f in
    let s =
      statistics_newreq req (record q { current_size = q.current_size +ℤ pos (fields req).len })
        statistics in
    (
      record (on_queue (fields req).type (λ _. s.0) f) {
        timeline_reqnb = f.timeline_reqnb +ℤ pos 1;
      },
      s.1,
    )

-- The counters and statistics after the request has been placed, with the call that traces it; `hash`
-- is its line.
unfoldable pub count_arrival : (config_trace_agios : Bool) → Request → ℕ → File → Agios → Agios
unfolding statistics_newreq put_file inc_current_reqnb
count_arrival config_trace_agios req hash f a =
    let b = put_file (count_in req f a.statistics).0 a in
    let c = b.counters in
    record b {
      statistics = (count_in req f a.statistics).1;
      traced = if config_trace_agios then a.traced ++ req ∷ [] else a.traced;
      counters =
          inc_current_reqnb (record c {
            hashlist_reqcounter = modify hash (λ x. x +ℤ pos 1) c.hashlist_reqcounter;
          });
    }

-- The rest of `give_back`, after step 1.
abbrev pub sent :
    (has_list_cb : Bool) → Request → Agios → Option Step1 → Option (Agios × List Callback)
sent has_list_cb req a none = none
sent has_list_cb req a (some s) =
    let g = on_queue (fields req).type (generic_post_process req) s.file in
    some
      (record (put_file g a) { counters = s.counters }, process_requests_step2 has_list_cb s.info)

-- NOOP gives the request back at once.
unfoldable pub give_back :
    (has_list_cb : Bool) → Request → (hash now : ℕ) → File → Agios → Option (Agios × List Callback)
unfolding process_requests_step1
give_back has_list_cb req hash now f a =
    sent has_list_cb req a (process_requests_step1 true req hash now f a.counters)

abbrev pub give_counted :
    Environment → Request → (hash : ℕ) → Agios → Option File → Option (Agios × List Callback)
give_counted env req hash b none = none
give_counted env req hash b (some g) = give_back env.has_list_cb req hash env.now_dispatched g b

abbrev pub finish_counted :
    Environment → Request → (hash : ℕ) → Agios → Option File → Option (Agios × List Callback)
finish_counted env req hash a none = none
finish_counted env req hash a (some f) =
    let b = count_arrival env.config_trace_agios req hash f a in
    if b.current_alg == noop_scheduler
    then give_counted env req hash b (file_of (fields req).file_id b)
    else some (b, [])

-- The end of `agios_add_request`, on the state `a` in which the request has its place.
unfoldable pub finish_add : Environment → Request → ℕ → Agios → Option (Agios × List Callback)
unfolding count_arrival give_back file_of
finish_add env req hash a = finish_counted env req hash a (file_of (fields req).file_id a)

pub data Outcome : Type 0 where
  -- it returned false
  refused : Outcome
  -- it returned true, in this state, after these calls of the callbacks
  added : Agios → List Callback → Outcome
  -- it followed a pointer that is NULL or no longer valid
  fault : Outcome

abbrev pub outcome : Option (Agios × List Callback) → Outcome
outcome none = fault
outcome (some (a, cs)) = added a cs

abbrev pub finish_placed : Environment → Request → ℕ → Option Agios → Outcome
finish_placed env req hash none = fault
finish_placed env req hash (some b) = outcome (finish_add env req hash b)

-- The constructed request goes to the data structure of the scheduler.
unfoldable pub add_constructed : Environment → Request → ℕ → Agios → Outcome
unfolding hashtable_add_req timeline_add_req finish_add
add_constructed env req hash a = finish_placed env req hash (
    if a.current_scheduler.needs_hashtable
    then hashtable_add_req env.file_memory req hash none a
    else timeline_add_req env.stored env.config_sw_size env.file_memory req hash none a)

abbrev pub add_result : Environment → ℕ → Agios → Option (Request × ℕ) → Outcome
add_result env hash a none = refused
add_result env hash a (some (req, g)) =
    add_constructed env req hash (record a { g_last_timestamp = g })

unfoldable pub agios_add_request : Environment → Arrival → Agios → Outcome
unfolding add_constructed
agios_add_request env r a = add_result env (get_hashtable_position r.file_id) a (
    request_constructor env.request_memory r.file_id r.type r.offset r.len r.identifier env.now
      r.queue_id a.g_last_timestamp)
