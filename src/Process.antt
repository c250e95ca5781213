-- ===== src/Process.antt =====
-- process_request.c: requests go back to the user in two steps; and `generic_post_process` of
-- scheduling_algorithms.c, which every scheduler calls between them.
pub mod Delivery
use forwarding_explorer_agio.Prelude.{
  ℕ, zero, suc, ◌+◌, Bool, true, false, Option, none, some, List, [], ◌∷◌, map, ◌==◌, leb, length,
  ltb, if◌then◌else◌,
}
use forwarding_explorer_agio.Prelude.Int.{ℤ, pos, negsuc, ◌-ℤ◌}
use forwarding_explorer_agio.Data.{
  Request, request, Requests, nil, cons, fields, reqs_list, Queue, File, rt_read,
}
use forwarding_explorer_agio.Files.{is_zero}
use forwarding_explorer_agio.Requests.{snoc}
use forwarding_explorer_agio.Statistics.{stats_aggregation}

-- The counters of agios_counters.c, and the one of the hashtable line.
pub record Counters : Type 0 where
  pub current_reqnb : ℤ
  pub current_filenb : ℤ
  pub hashlist_reqcounter : List ℤ

abbrev pub modify : ℕ → (ℤ → ℤ) → List ℤ → List ℤ
modify i f [] = []
modify zero f (x ∷ xs) = f x ∷ xs
modify (suc i) f (x ∷ xs) = x ∷ modify i f xs

unfoldable pub inc_current_reqnb : Counters → Counters
inc_current_reqnb c = record c { current_reqnb = c.current_reqnb -ℤ negsuc 0 }

unfoldable pub inc_current_filenb : Counters → Counters
inc_current_filenb c = record c { current_filenb = c.current_filenb -ℤ negsuc 0 }

unfoldable pub dec_current_filenb : Counters → Counters
dec_current_filenb c = record c { current_filenb = c.current_filenb -ℤ pos 1 }

unfoldable pub dec_many_current_reqnb : ℕ → ℕ → Counters → Counters
dec_many_current_reqnb hash value c = record c {
  current_reqnb = c.current_reqnb -ℤ pos value;
  hashlist_reqcounter = modify hash (λ x. x -ℤ pos value) c.hashlist_reqcounter;
}

unfoldable pub dec_current_reqnb : ℕ → Counters → Counters
dec_current_reqnb hash c = record c {
  current_reqnb = c.current_reqnb -ℤ pos 1;
  hashlist_reqcounter = modify hash (λ x. x -ℤ pos 1) c.hashlist_reqcounter;
}

-- A write through `globalinfo`, the queue of a file for a type of request, and a read.
abbrev pub on_queue : ℕ → (Queue → Queue) → File → File
on_queue type f file =
    if type == rt_read
    then record file { read_queue = f file.read_queue }
    else record file { write_queue = f file.write_queue }

abbrev pub queue_of : ℕ → File → Queue
queue_of type file = if type == rt_read then file.read_queue else file.write_queue

pub record ProcessingInfo : Type 0 where
  pub user_ids : List ℕ
  pub reqnb : ℕ

abbrev pub stamped : ℕ → Request → Request
stamped this_time (request f a) = request (record f { dispatch_timestamp = this_time }) a

-- `type` is that of the virtual request, whose queue is `dispatch`'s.
unfoldable pub put_this_request_in_dispatch : Request → (this_time type : ℕ) → File → File
put_this_request_in_dispatch req this_time type file =
    let f =
      on_queue type
        (λ q. record q {
          dispatch = snoc q.dispatch (stamped this_time req);
          current_size = q.current_size -ℤ pos (fields req).len;
        })
        file in
    record f { timeline_reqnb = f.timeline_reqnb -ℤ pos 1 }

-- The loop over the sub-requests of a virtual request.
unfoldable pub dispatch_all : Requests → (this_time type : ℕ) → File → File
dispatch_all nil this_time type f = f
dispatch_all (cons r rs) this_time type f =
    dispatch_all rs this_time type (put_this_request_in_dispatch r this_time type f)

-- The user's identifiers of a list of requests.
abbrev pub user_ids : Requests → List ℕ
user_ids nil = []
user_ids (cons r rs) = (fields r).user_id ∷ user_ids rs

-- The requests that go into the dispatch queue: the parts of a virtual request, or the request.
unfoldable pub parts : Request → Requests
parts head_req = if ltb 1 (fields head_req).reqnb then reqs_list head_req else cons head_req nil

-- What step 1 leaves: the file of the request, the counters, and what step 2 is given.
pub record Step1 : Type 0 where
  pub info : ProcessingInfo
  pub file : File
  pub counters : Counters

abbrev pub settle_files : ℤ → Counters → Counters
settle_files timeline_reqnb c = if is_zero timeline_reqnb then dec_current_filenb c else c

-- `none` where `malloc` fails. The count of a virtual request starts again from 0 in the loop.
unfoldable pub process_requests_step1 :
    (memory : Bool) → Request → (hash now : ℕ) → File → Counters → Option Step1
unfolding parts
process_requests_step1 memory head_req hash now file c =
    let h = fields head_req in
    let sent = parts head_req in
    let file' = dispatch_all sent now h.type file in
    if memory
    then (some (record {
      info = record {
        user_ids = user_ids sent;
        reqnb = if ltb 1 h.reqnb then length (user_ids sent) else h.reqnb;
      };
      file = file';
      counters = dec_many_current_reqnb hash h.reqnb (settle_files file'.timeline_reqnb c);
    }))
    else none

-- A call of one of the user's two callbacks.
pub data Callback : Type 0 where
  process_request_cb : ℕ → Callback
  process_requests_cb : List ℕ → ℕ → Callback

-- `*(info->user_ids)`, and the loop over the first `n` identifiers.
unfoldable pub first_call : List ℕ → List Callback
first_call [] = []
first_call (x ∷ xs) = process_request_cb x ∷ []

unfoldable pub each_call : ℕ → List ℕ → List Callback
each_call zero xs = []
each_call (suc n) [] = []
each_call (suc n) (x ∷ xs) = process_request_cb x ∷ each_call n xs

-- The calls that step 2 makes, in order; `has_list_cb` says whether the user gave the callback for
-- lists. What it returns is `is_time_to_change_scheduler`.
unfoldable pub process_requests_step2 : (has_list_cb : Bool) → ProcessingInfo → List Callback
unfolding first_call each_call
process_requests_step2 has_list_cb info =
    if info.reqnb == 1
    then first_call info.user_ids
    else if has_list_cb
    then process_requests_cb info.user_ids info.reqnb ∷ []
    else each_call info.reqnb info.user_ids

-- The queue is `req->globalinfo`. The virtual request is freed, with its sub-requests left alone.
unfoldable pub generic_post_process : Request → Queue → Queue
generic_post_process req q =
    let q' = record q { lastaggregation = (fields req).reqnb } in
    if ltb 1 (fields req).reqnb then stats_aggregation q' else q'
