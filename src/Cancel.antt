-- ===== src/Cancel.antt =====
-- agios_cancel_request.c: the user gives up a request that still waits in a queue, alone or as a
-- part of a virtual request.
pub mod Shrinking
pub mod Queues
use forwarding_explorer_agio.Prelude.{
  ℕ, ◌+◌, ◌-◌, Bool, true, false, ◌&&◌, Option, none, some, List, ◌==◌, leb, ltb, if◌then◌else◌,
}
use forwarding_explorer_agio.Prelude.Int.{ℤ, pos, ◌-ℤ◌}
use forwarding_explorer_agio.Data.{
  FileId, Fields, Request, request, Requests, nil, cons, fields, reqs_list, File, Queue,
}
use forwarding_explorer_agio.Files.{find_file, set_file, is_zero}
use forwarding_explorer_agio.Hash.{get_hashtable_position}
use forwarding_explorer_agio.Process.{Counters, dec_current_filenb, dec_current_reqnb, on_queue}
use forwarding_explorer_agio.Release.{Taken, keep, is_match, take_match, related_queue, set_related}
use forwarding_explorer_agio.State.{Agios, line, file_of, put_file, set_line}

-- One round of the loop that recalculates the virtual request from its sub-requests.
unfoldable pub extend_by : Fields → Fields → Fields
extend_by f t =
    let start = if ltb t.offset f.offset then t.offset else f.offset in
    let len = if ltb t.offset f.offset then f.len + (f.offset - t.offset) else f.len in
    record f {
      offset = start;
      len =
          if ltb (start + len) (t.offset + t.len)
          then len + (t.offset + t.len - (start + len))
          else len;
      arrival_time = if ltb t.arrival_time f.arrival_time then t.arrival_time else f.arrival_time;
      timestamp = if ltb t.timestamp f.timestamp then t.timestamp else f.timestamp;
    }

unfoldable pub extend_all : Fields → Requests → Fields
extend_all f nil = f
extend_all f (cons tmp rest) = extend_all (extend_by f (fields tmp)) rest

-- The first sub-request sets the fields, and the others extend them.
unfoldable pub recalculate : Fields → Requests → Fields
unfolding extend_all
recalculate f nil = f
recalculate f (cons tmp rest) =
    let t = fields tmp in
    extend_all
      (record f {
        offset = t.offset;
        len = t.len;
        arrival_time = t.arrival_time;
        timestamp = t.timestamp;
      })
      rest

-- What stands in the queue for a virtual request that counts `n` and has these sub-requests left.
abbrev pub dissolve : ℕ → Fields → Requests → Request
dissolve n f nil = request (record f { reqnb = n }) nil
dissolve n f (cons tmp rest) =
    if n == 1 then tmp else request (record f { reqnb = n }) (cons tmp rest)

unfoldable pub shrink : Fields → Requests → Request
unfolding recalculate
shrink f rest = dissolve (f.reqnb - 1) (recalculate f rest) rest

-- The virtual request spans the request that is looked for.
abbrev pub spans : ℕ → ℕ → Fields → Bool
spans len offset f = leb f.offset offset && leb (offset + len) (f.offset + f.len)

-- The loop over the queue. `take_virtual` is the case of a virtual request whose sub-requests were
-- searched, and `next` the outcome for the rest of the queue.
abbrev pub take_virtual : Fields → Requests → Requests → Option Taken → Option Taken → Option Taken
take_virtual f subs rest none next = keep (request f subs) next
take_virtual f subs rest (some t) next =
    some (record { req = t.req; rest = cons (shrink f t.rest) rest })

abbrev pub take_here : ℕ → ℕ → Request → Requests → Option Taken → Option Taken
take_here len offset (request f subs) rest next =
    if f.reqnb == 1
    then (if is_match len offset (request f subs)
        then some (record { req = request f subs; rest = rest })
        else keep (request f subs) next)
    else if spans len offset f
    then take_virtual f subs rest (take_match len offset subs) next
    else keep (request f subs) next

unfoldable pub cancel_in : ℕ → ℕ → Requests → Option Taken
unfolding take_match shrink
cancel_in len offset nil = none
cancel_in len offset (cons req rest) = take_here len offset req rest (cancel_in len offset rest)

-- The counters of the request's own file and queue; `hash` is the line of the handle that the user
-- gave.
unfoldable pub forget_request : ℕ → Request → Agios → Agios
unfolding dec_current_filenb dec_current_reqnb file_of put_file
forget_request hash r a = elim (file_of (fields r).file_id a) [
  | none ↦ a
  | some f ↦
      let g =
        on_queue (fields r).type
          (λ q. record q { current_size = q.current_size -ℤ pos (fields r).len }) f in
      let left = g.timeline_reqnb -ℤ pos 1 in
      let b = put_file (record g { timeline_reqnb = left }) a in
      record b {
        counters =
            dec_current_reqnb hash
              (if is_zero left then dec_current_filenb b.counters else b.counters);
      }
]

-- The queue that is searched is in the file under the hashtable algorithms, and else the timeline.
unfoldable pub cancel_queued :
    (using_hashtable : Bool) → (type len offset hash : ℕ) → File → Agios → Agios
unfolding cancel_in forget_request
cancel_queued using_hashtable type len offset hash f a =
    if using_hashtable
    then (elim (cancel_in len offset (related_queue type f).list) [
      | none ↦ a
      | some t ↦
          let f' = set_related type (record (related_queue type f) { list = t.rest }) f in
          forget_request hash t.req (set_line hash (set_file f' (line hash a)) a)
    ])
    else (elim (cancel_in len offset a.timeline) [
      | none ↦ a
      | some t ↦ forget_request hash t.req (record a { timeline = t.rest })
    ])

-- It returns true also where the request is not in the queue.
unfoldable pub agios_cancel_request : FileId → (type len offset : ℕ) → Agios → Bool × Agios
unfolding cancel_queued
agios_cancel_request file_id type len offset a =
    let hash = get_hashtable_position file_id in
    elim (find_file file_id (line hash a)) [
      | none ↦ (false, a)
      | some f ↦ (true, cancel_queued a.current_scheduler.needs_hashtable type len offset hash f a)
    ]
