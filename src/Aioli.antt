-- ===== src/Aioli.antt =====
-- aIOLi.c: the main loop. It takes requests from one selected queue until the quantum of the queue is
-- used up, and gives the queue its next quantum.
pub mod Batch
pub mod Rounds
use forwarding_explorer_agio.Prelude.{
  ℕ, zero, suc, ◌+◌, ◌%◌, ◌^◌, Bool, true, false, ◌&&◌, not, Option, none, some, List, [], ◌∷◌,
  ◌++◌, ◌==◌, ltb, if◌then◌else◌,
}
use forwarding_explorer_agio.Prelude.Int.{ℤ, pos, pos_part, ltb_ℤ, ◌-ℤ◌}
use forwarding_explorer_agio.Data.{Request, Requests, nil, cons, fields, Queue, File}
use forwarding_explorer_agio.Dispatch.{set_list}
use forwarding_explorer_agio.Fifo.{Selected, Selection, aioli_select_queue}
use forwarding_explorer_agio.Files.{find_file, set_file}
use forwarding_explorer_agio.Process.{
  Callback, Counters, ProcessingInfo, Step1, on_queue, queue_of, process_requests_step1,
}
use forwarding_explorer_agio.Quanta.{adjust_quantum}
use forwarding_explorer_agio.Requests.{is_empty}
use forwarding_explorer_agio.State.{Agios, line, set_line}
use forwarding_explorer_agio.Timeline.{to_int32}
use forwarding_explorer_agio.Waiting.{waiting_algorithms_postprocess, call_step2_for_info_list}

-- What the rounds of the loop meet: the parameters and callbacks, the times by round and line of the
-- search, of its last test, and by round and number of the request, and by round what the calls of
-- step 2 return.
pub record Environment : Type 0 where
  pub has_list_cb : Bool
  pub config_waiting_time : ℕ
  pub config_aioli_quantum : ℕ
  pub now_searched : ℕ → ℕ → ℕ
  pub now_checked : ℕ → ℕ
  pub now_sent : ℕ → ℕ → ℕ
  pub stops : ℕ → List Bool

-- What the requests taken from a queue leave: its file, the counters, the list for step 2 and the
-- quantum that they used. `used_quantum` is the bit pattern of an `int32_t`.
pub record Service : Type 0 where
  pub file : File
  pub counters : Counters
  pub info_list : List ProcessingInfo
  pub used_quantum : ℕ

unfoldable pub add_used : (used_quantum : ℕ) → Request → ℕ
add_used used_quantum req = (used_quantum + (fields req).len) % 2 ^ 32

-- `hashtable_del_req` leaves `q` of the queue for `type`.
abbrev pub note : (type : ℕ) → Request → Service → Option Step1 → Option Service
note type r s none = none
note type r s (some t) = some (record {
  file = on_queue (fields r).type (waiting_algorithms_postprocess r) t.file;
  counters = t.counters;
  info_list = s.info_list ++ t.info ∷ [];
  used_quantum = add_used s.used_quantum r;
})

unfoldable pub take_request :
    (hash now type : ℕ) → Request → (rest : Requests) → Service → Option Service
unfolding add_used
take_request hash now type r q s =
    note type r s (process_requests_step1 true r hash now (set_list type q s.file) s.counters)

-- The test of `while`, and the one for a request that would use leftover quantum.
abbrev pub goes_on : (current_quantum : ℕ) → Requests → Service → Bool
goes_on current q s = not (is_empty q) && ltb_ℤ (to_int32 s.used_quantum) (pos current)

abbrev pub is_too_large : (current_quantum : ℕ) → Request → Service → Bool
is_too_large current r s = ltb_ℤ (pos current -ℤ to_int32 s.used_quantum) (pos (fields r).len)

abbrev pub then_take : Option Service → (Service → Option Service) → Option Service
then_take none k = none
then_take (some s) k = k s

-- The rounds after the first of the loop over the requests of a queue, where `q` is what the queue
-- holds and `k` the number of the request. The other calls leave the queue alone.
unfoldable pub take_more :
    (now_sent : ℕ → ℕ) → (k hash type current_quantum : ℕ) → Requests → Service → Option Service
unfolding take_request
take_more now k hash type current nil s = some s
take_more now k hash type current (cons r q) s =
    let next =
      then_take (take_request hash (now k) type r q s)
        (λ t. take_more now (suc k) hash type current q t) in
    if not (goes_on current (cons r q) s)
    then some s
    else if is_too_large current r s
    then some s
    else next

-- The whole loop, on a queue that holds `q`. An empty queue has no first request.
unfoldable pub take_requests :
    (now_sent : ℕ → ℕ) → (hash type current_quantum : ℕ) → Requests → Service → Option Service
unfolding take_more
take_requests now hash type current nil s = none
take_requests now hash type current (cons r q) s =
    then_take (take_request hash (now 0) type r q s) (λ t. take_more now 1 hash type current q t)

-- The next quantum of the queue. `aioli_stop` is false there; `adjust_quantum` gives no negative
-- number.
unfoldable pub next_quantum : (config_aioli_quantum used_quantum current_quantum : ℕ) → ℕ
unfolding adjust_quantum
next_quantum config used current =
    if not (ltb_ℤ (to_int32 used) (pos current))
    then if current == 0 then config else pos_part (adjust_quantum config used current)
    else pos_part (adjust_quantum config used current)

abbrev pub set_quantum : (config_aioli_quantum type current_quantum : ℕ) → Service → File
set_quantum config type current s =
    on_queue type
      (λ queue. record queue { nextquantum = next_quantum config s.used_quantum current }) s.file

-- What a round leaves, with the calls and `aioli_stop`.
pub record Round : Type 0 where
  pub agios : Agios
  pub calls : List Callback
  pub stop : Bool

abbrev pub served :
    Environment → (i : ℕ) → Selected → Agios → (quantum : ℕ) → Option Service → Option Round
served e i c a current none = none
served e i c a current (some s) =
    let f = set_quantum e.config_aioli_quantum c.type current s in
    let calls = call_step2_for_info_list e.has_list_cb s.info_list (e.stops i) in
    some (record {
      agios = record (set_line c.index (set_file f (line c.index a)) a) { counters = s.counters };
      calls = calls.0;
      stop = calls.1;
    })

abbrev pub serve_file : Environment → (i : ℕ) → Selected → Agios → Option File → Option Round
serve_file e i c a none = none
serve_file e i c a (some f) =
    let queue = queue_of c.type f in
    served e i c a queue.nextquantum (
      take_requests (e.now_sent i) c.index c.type queue.nextquantum queue.list
        (record { file = f; counters = a.counters; info_list = []; used_quantum = 0 }))

-- A round with a selected queue. `none` is a queue that has lost its file or its requests.
unfoldable pub serve_queue : Environment → (i : ℕ) → Selected → Agios → Option Round
unfolding find_file set_file take_requests call_step2_for_info_list next_quantum
serve_queue e i c a = serve_file e i c a (find_file c.file_id (line c.index a))

-- `aIOLi` with what it returns.
pub data AioliLoop : Type 0 where
  -- there was no fuel left
  running : AioliLoop
  -- a pointer was followed that is NULL or no request
  fault : AioliLoop
  returned : Agios → List Callback → (ret : ℕ) → AioliLoop

abbrev pub after_calls : List Callback → AioliLoop → AioliLoop
after_calls cs running = running
after_calls cs fault = fault
after_calls cs (returned a ds ret) = returned a (cs ++ ds) ret

abbrev pub end_round : Option Round → (Agios → AioliLoop) → AioliLoop
end_round none k = fault
end_round (some r) k =
    if r.stop then returned r.agios r.calls 0 else after_calls r.calls (k r.agios)

abbrev pub new_time : (waiting_time : ℕ) → Option ℕ → ℕ
new_time waiting_time none = waiting_time
new_time waiting_time (some t) = t

-- The two cases of a round: with a queue, or without.
abbrev pub with_queue :
    Environment → (i waiting_time : ℕ) → Agios → Option Selected → (Agios → AioliLoop) → AioliLoop
with_queue e i waiting_time a (some c) k = end_round (serve_queue e i c a) k
with_queue e i waiting_time a none k =
    if ltb 0 waiting_time then returned a [] waiting_time else k a

abbrev pub after_search :
    Environment
    → (i waiting_time : ℕ) → Agios
    → Option Selection
    → (ℕ → Agios → AioliLoop)
    → AioliLoop
after_search e i waiting_time a none k = fault
after_search e i waiting_time a (some s) k =
    let t = new_time waiting_time s.sleeping_time in
    with_queue e i t (record a { hashlist = s.hashlist }) s.queue (k t)

-- `n` is the fuel and `i` the number of the round. At the start `waiting_time` has whatever value its
-- memory held.
unfoldable pub aioli : (n i : ℕ) → Environment → (waiting_time : ℕ) → Agios → AioliLoop
unfolding aioli_select_queue serve_queue
aioli zero i e waiting_time a = running
aioli (suc n) i e waiting_time a =
    let search =
      aioli_select_queue e.config_waiting_time e.config_aioli_quantum (e.now_searched i)
        (e.now_checked i) a.hashlist in
    let after = after_search e i waiting_time a search (λ t b. aioli n (suc i) e t b) in
    if ltb_ℤ (pos 0) a.counters.current_reqnb then after else returned a [] 0
