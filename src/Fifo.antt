-- ===== src/Fifo.antt =====
-- aIOLi.c: the search for the queue to process, the one whose first request is the oldest among the
-- files that do not wait.
pub mod Parts
pub mod Oldest
use forwarding_explorer_agio.Prelude.{
  ℕ, zero, suc, ◌+◌, ◌-◌, ◌^◌, Bool, true, false, Option, none, some, List, [], ◌∷◌, ◌==◌, ltb,
  get_or, set, if◌then◌else◌,
}
use forwarding_explorer_agio.Data.{
  FileId, Request, Requests, fields, Queue, File, rt_read, rt_write,
}
use forwarding_explorer_agio.Quanta.{aioli_select_from_list}
use forwarding_explorer_agio.Waiting.{update_waiting_time_counters, check_selection}
use forwarding_explorer_agio.Files.{find_file, set_file}
use forwarding_explorer_agio.Process.{queue_of}
use forwarding_explorer_agio.Timeline.{timeline_oldest_req}

abbrev pub int_max : ℕ
int_max = 2 ^ 31 - 1

-- The queue of a file from which a request may be processed, by its type, and the request's
-- timestamp.
pub record Candidate : Type 0 where
  pub type : ℕ
  pub timestamp : ℕ

abbrev pub candidate_of : (type : ℕ) → Option Request → Option Candidate
candidate_of type none = none
candidate_of type (some r) = some (record { type = type; timestamp = (fields r).timestamp })

abbrev pub with_writes : (config_aioli_quantum : ℕ) → File → Option Candidate × File
with_writes quantum f =
    let w = aioli_select_from_list quantum f.write_queue.list in
    (
      candidate_of rt_write w.selected,
      record f { write_queue = record (f.write_queue) { list = w.list } },
    )

abbrev pub or_writes :
    (config_aioli_quantum : ℕ) → File → Option Candidate → Option Candidate × File
or_writes quantum f none = with_writes quantum f
or_writes quantum f (some c) = (some c, f)

-- The factors of the read queue go up, and those of the write queue if no read is chosen. An empty
-- queue is left alone by `aioli_select_from_list` as well.
unfoldable pub aioli_select_from_file : (config_aioli_quantum : ℕ) → File → Option Candidate × File
unfolding aioli_select_from_list
aioli_select_from_file quantum f =
    let r = aioli_select_from_list quantum f.read_queue.list in
    or_writes quantum (record f { read_queue = record (f.read_queue) { list = r.list } })
      (candidate_of rt_read r.selected)

-- `selected_queue` with `selected_index`.
pub record Selected : Type 0 where
  pub index : ℕ
  pub file_id : FileId
  pub type : ℕ

-- The variables of the search.
pub record Search : Type 0 where
  pub shortest_waiting_time : ℕ
  pub waiting_options : ℕ
  pub selected_timestamp : ℕ
  pub selected : Option Selected

unfoldable pub offer : (index : ℕ) → FileId → Option Candidate → Search → Search
offer index file_id none s = s
offer index file_id (some c) s =
    if ltb c.timestamp s.selected_timestamp
    then record s {
      selected_timestamp = c.timestamp;
      selected = some (record { index = index; file_id = file_id; type = c.type });
    }
    else s

-- A file that waits, and whether it still does.
abbrev pub wait_on : (now : ℕ) → File → Search → File × Search
wait_on now f s =
    let u = update_waiting_time_counters now f s.shortest_waiting_time in
    if ltb 0 f.waiting_time
    then (
      u.0,
      record s {
        shortest_waiting_time = u.1;
        waiting_options =
            if ltb 0 u.0.waiting_time then s.waiting_options + 1 else s.waiting_options;
      },
    )
    else (f, s)

unfoldable pub visit : (config_aioli_quantum now index : ℕ) → File → Search → File × Search
unfolding update_waiting_time_counters aioli_select_from_file offer
visit quantum now index f s =
    let w = wait_on now f s in
    let c = aioli_select_from_file quantum w.0 in
    if ltb 0 w.0.waiting_time then w else (c.1, offer index f.file_id c.0 w.1)

unfoldable pub visit_line :
    (config_aioli_quantum now index : ℕ) → List File → Search → List File × Search
unfolding visit
visit_line quantum now index [] s = ([], s)
visit_line quantum now index (f ∷ fs) s =
    let one = visit quantum now index f s in
    let rest = visit_line quantum now index fs one.1 in (one.0 ∷ rest.0, rest.1)

-- The lines from `index` on. `now` is the time for each of them.
unfoldable pub visit_lines :
    (config_aioli_quantum : ℕ)
    → (now : ℕ → ℕ) → (index : ℕ) → List (List File)
    → Search
    → List (List File) × Search
unfolding visit_line
visit_lines quantum now index [] s = ([], s)
visit_lines quantum now index (l ∷ ls) s =
    let one = visit_line quantum (now index) index l s in
    let rest = visit_lines quantum now (index + 1) ls one.1 in (one.0 ∷ rest.0, rest.1)

abbrev pub first_search : Search
first_search = record {
  shortest_waiting_time = int_max;
  waiting_options = 0;
  selected_timestamp = int_max;
  selected = none;
}

-- What `aIOLi_select_queue` returns, what it writes to `*sleeping_time`, if anything, and the
-- hashtable then.
pub record Selection : Type 0 where
  pub queue : Option Selected
  pub sleeping_time : Option ℕ
  pub hashlist : List (List File)

abbrev pub settle : Selected → List (List File) → Bool × File → Selection
settle c hashlist (go_on, f) = record {
  queue = if go_on then some c else none;
  sleeping_time = if go_on then none else some 0;
  hashlist = set hashlist c.index (set_file f (get_or hashlist c.index []));
}

abbrev pub test_first :
    (config_waiting_time now : ℕ)
    → Selected
    → List (List File)
    → File
    → Option (Request × Requests)
    → Option Selection
test_first wait now c hashlist f none = none
test_first wait now c hashlist f (some (r, q)) =
    some (settle c hashlist (check_selection wait now r f))

abbrev pub test_selected :
    (config_waiting_time now : ℕ) → Selected → List (List File) → Option File → Option Selection
test_selected wait now c hashlist none = none
test_selected wait now c hashlist (some f) =
    test_first wait now c hashlist f (timeline_oldest_req (queue_of c.type f).list)

abbrev pub test_selection :
    (config_waiting_time now : ℕ) → List (List File) → Search → Option Selected → Option Selection
test_selection wait now hashlist s none = some (record {
  queue = none;
  sleeping_time = if ltb 0 s.waiting_options then some s.shortest_waiting_time else none;
  hashlist = hashlist;
})
test_selection wait now hashlist s (some c) =
    test_selected wait now c hashlist (find_file c.file_id (get_or hashlist c.index []))

-- `none` is a queue that has lost its requests or its file. `now_checked` is the time of the last
-- test, which may make the file wait.
unfoldable pub aioli_select_queue :
    (config_waiting_time config_aioli_quantum : ℕ)
    → (now : ℕ → ℕ) → (now_checked : ℕ) → List (List File)
    → Option Selection
unfolding visit_lines check_selection timeline_oldest_req find_file set_file
aioli_select_queue wait quantum now now_checked hashlist =
    let v = visit_lines quantum now 0 hashlist first_search in
    test_selection wait now_checked v.0 v.1 v.1.selected
