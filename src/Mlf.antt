-- ===== src/Mlf.antt =====
-- MLF.c: the main loop, which goes round the lines of the hashtable and takes at most one request from
-- each file of a line. A line that another thread holds is passed over for a while.
pub mod Selection
pub mod Candidates
pub mod Steps
pub mod Lines
pub mod Turns
pub mod Ends
pub mod Session
use forwarding_explorer_agio.Prelude.{
  ℕ, zero, suc, ◌+◌, Bool, true, false, Option, none, some, List, [], ◌∷◌, ◌++◌, ◌==◌, ltb, leb,
  get_or, set, replicate, if◌then◌else◌,
}
use forwarding_explorer_agio.Prelude.Int.{ℤ, pos, ltb_ℤ}
use forwarding_explorer_agio.Data.{Request, Requests, nil, cons, fields, File}
use forwarding_explorer_agio.Fifo.{int_max}
use forwarding_explorer_agio.Hash.{agios_hash_entries}
use forwarding_explorer_agio.Process.{
  Callback, Counters, ProcessingInfo, Step1, on_queue, process_requests_step1,
}
use forwarding_explorer_agio.Quanta.{covers, mlf_select_request}
use forwarding_explorer_agio.State.{Agios, line, set_line}
use forwarding_explorer_agio.Waiting.{
  update_waiting_time_counters, waiting_algorithms_postprocess, call_step2_for_info_list,
}

-- The globals of the scheduler.
pub record Mlf : Type 0 where
  pub mlf_current_hash : ℕ
  pub mlf_lock_tries : List ℕ

abbrev pub max_mlf_lock_tries : ℕ
max_mlf_lock_tries = 2

-- `none` is the result false. The position of the last run is kept.
unfoldable pub mlf_init : (memory : Bool) → Mlf → Option Mlf
mlf_init memory m =
    if memory then some (record m { mlf_lock_tries = replicate agios_hash_entries 0 }) else none

-- What the rounds of the loop meet: the parameters and callbacks, by round whether the line is free,
-- the times by round and file of the line, and by round what the calls of step 2 return.
pub record Environment : Type 0 where
  pub has_list_cb : Bool
  pub config_waiting_time : ℕ
  pub config_mlf_quantum : ℕ
  pub is_free : ℕ → Bool
  pub now_waited : ℕ → ℕ → ℕ
  pub now_checked : ℕ → ℕ → ℕ
  pub now_sent : ℕ → ℕ → ℕ
  pub stops : ℕ → List Bool

-- The local variables of `MLF` that last, and what the walk over a line adds.
pub record Locals : Type 0 where
  pub shortest_waiting_time : ℕ
  pub processed_requests : Bool

pub record Walk : Type 0 where
  pub locals : Locals
  pub counters : Counters
  pub info_list : List ProcessingInfo

-- `hashtable_del_req` for the selected request, the first of its queue that the quantum covers.
abbrev pub keep_first : Request → Option Requests → Option Requests
keep_first r none = none
keep_first r (some q) = some (cons r q)

unfoldable pub take_covered : (quantum : ℕ) → Requests → Option Requests
take_covered quantum nil = none
take_covered quantum (cons r q) =
    let rest = take_covered quantum q in if covers quantum r then some q else keep_first r rest

abbrev pub without_selected : File → (read_list write_list : Option Requests) → File
without_selected f (some q) w = record f { read_queue = record (f.read_queue) { list = q } }
without_selected f none (some q) = record f { write_queue = record (f.write_queue) { list = q } }
without_selected f none none = f

unfoldable pub delete_selected : (quantum : ℕ) → File → File
unfolding take_covered
delete_selected quantum f =
    without_selected f (take_covered quantum f.read_queue.list)
      (take_covered quantum f.write_queue.list)

-- The rest of a step with a request that step 1 has taken on.
abbrev pub note : Request → Walk → Option Step1 → Option (File × Walk)
note r w none = none
note r w (some s) = some (
  on_queue (fields r).type (waiting_algorithms_postprocess r) s.file,
  record {
    locals = record (w.locals) { processed_requests = true };
    counters = s.counters;
    info_list = w.info_list ++ s.info ∷ [];
  },
)

abbrev pub process_selected :
    (quantum hash now : ℕ) → Walk → Option Request × File → Option (File × Walk)
process_selected quantum hash now w (none, f) = some (f, w)
process_selected quantum hash now w (some r, f) =
    if f.waiting_time == 0
    then note r w (process_requests_step1 true r hash now (delete_selected quantum f) w.counters)
    else some (f, w)

-- A file that waits, and the shortest time.
abbrev pub wait_on : (now : ℕ) → File → Locals → File × Locals
wait_on now f l =
    let u = update_waiting_time_counters now f l.shortest_waiting_time in
    if ltb 0 f.waiting_time then (u.0, record l { shortest_waiting_time = u.1 }) else (f, l)

-- The step for one file. `none` is a NULL from `malloc`.
unfoldable pub mlf_step : Environment → (i k hash : ℕ) → File → Walk → Option (File × Walk)
unfolding update_waiting_time_counters mlf_select_request delete_selected
mlf_step e i k hash f w =
    let u = wait_on (e.now_waited i k) f w.locals in
    process_selected e.config_mlf_quantum hash (e.now_sent i k) (record w { locals = u.1 })
      (mlf_select_request e.config_waiting_time e.config_mlf_quantum (e.now_checked i k) u.0)

abbrev pub with_rest : File → Option (List File × Walk) → Option (List File × Walk)
with_rest f none = none
with_rest f (some (fs, w)) = some (f ∷ fs, w)

abbrev pub next_file :
    Option (File × Walk) → (Walk → Option (List File × Walk)) → Option (List File × Walk)
next_file none k = none
next_file (some (f, w)) k = with_rest f (k w)

-- The files from number `k` on of a line.
unfoldable pub mlf_files :
    Environment → (i k hash : ℕ) → List File → Walk → Option (List File × Walk)
unfolding mlf_step
mlf_files e i k hash [] w = some ([], w)
mlf_files e i k hash (f ∷ fs) w =
    next_file (mlf_step e i k hash f w) (λ v. mlf_files e i (suc k) hash fs v)

-- What a round leaves, with the calls and `mlf_stop`.
pub record Round : Type 0 where
  pub mlf : Mlf
  pub locals : Locals
  pub agios : Agios
  pub calls : List Callback
  pub stop : Bool

-- Step 2 for a line that has been walked over.
abbrev pub sent :
    Environment → (i hash : ℕ) → Mlf → Agios → Option (List File × Walk) → Option Round
sent e i hash m a none = none
sent e i hash m a (some (fs, w)) =
    let c = call_step2_for_info_list e.has_list_cb w.info_list (e.stops i) in
    some (record {
      mlf = m;
      locals = w.locals;
      agios = record (set_line hash fs a) { counters = w.counters };
      calls = c.0;
      stop = c.1;
    })

-- A round with the lock. A line without requests is not walked over.
unfoldable pub locked_round : Environment → (i : ℕ) → Locals → Mlf → Agios → Option Round
unfolding mlf_files call_step2_for_info_list
locked_round e i l m a =
    let hash = m.mlf_current_hash in
    let m' = record m { mlf_lock_tries = set m.mlf_lock_tries hash 0 } in
    let w : Walk = record { locals = l; counters = a.counters; info_list = [] } in
    sent e i hash m' a (
      if ltb_ℤ (pos 0) (get_or a.counters.hashlist_reqcounter hash (pos 0))
      then mlf_files e i 0 hash (line hash a) w
      else some (line hash a, w))

-- The lock is taken if the line is free, and waited for after the last try.
unfoldable pub mlf_round : Environment → (i : ℕ) → Locals → Mlf → Agios → Option Round
unfolding locked_round
mlf_round e i l m a =
    let tries = get_or m.mlf_lock_tries m.mlf_current_hash 0 in
    if e.is_free i
    then locked_round e i l m a
    else if leb max_mlf_lock_tries tries
    then locked_round e i l m a
    else some (record {
      mlf = record m { mlf_lock_tries = set m.mlf_lock_tries m.mlf_current_hash (tries + 1) };
      locals = l;
      agios = a;
      calls = [];
      stop = false;
    })

-- `MLF` with what it returns.
pub data MlfLoop : Type 0 where
  -- there was no fuel left
  running : MlfLoop
  -- a NULL was followed
  fault : MlfLoop
  returned : Mlf → Agios → List Callback → (waiting_time : ℕ) → MlfLoop

abbrev pub after_calls : List Callback → MlfLoop → MlfLoop
after_calls cs running = running
after_calls cs fault = fault
after_calls cs (returned m a ds t) = returned m a (cs ++ ds) t

unfoldable pub next_line : ℕ → ℕ
next_line hash = if leb agios_hash_entries (hash + 1) then 0 else hash + 1

-- Whether all lines have been visited, and whether anything was processed meanwhile.
abbrev pub end_turn :
    (all_visited processed : Bool)
    → Locals
    → Mlf
    → Agios
    → (Locals → Mlf → Agios → MlfLoop)
    → MlfLoop
end_turn false processed l m a k = k l m a
end_turn true false l m a k = returned m a [] l.shortest_waiting_time
end_turn true true l m a k = k (record l { processed_requests = false }) m a

abbrev pub move_on :
    (starting_hash : ℕ) → (stop : Bool) → Round → (Locals → Mlf → Agios → MlfLoop) → MlfLoop
move_on starting_hash true r k = returned r.mlf r.agios r.calls 0
move_on starting_hash false r k =
    let hash = next_line r.mlf.mlf_current_hash in
    after_calls r.calls (
      end_turn (hash == starting_hash) r.locals.processed_requests r.locals
        (record (r.mlf) { mlf_current_hash = hash }) r.agios k)

abbrev pub end_round :
    (starting_hash : ℕ) → Option Round → (Locals → Mlf → Agios → MlfLoop) → MlfLoop
end_round starting_hash none k = fault
end_round starting_hash (some r) k = move_on starting_hash r.stop r k

-- `n` is the fuel and `i` the number of the round.
unfoldable pub rounds : (n i starting_hash : ℕ) → Environment → Locals → Mlf → Agios → MlfLoop
unfolding mlf_round next_line
rounds zero i starting_hash e l m a = running
rounds (suc n) i starting_hash e l m a =
    let after =
      end_round starting_hash (mlf_round e i l m a)
        (λ l' m' b. rounds n (suc i) starting_hash e l' m' b) in
    if ltb_ℤ (pos 0) a.counters.current_reqnb then after else returned m a [] 0

unfoldable pub mlf : (n : ℕ) → Environment → Mlf → Agios → MlfLoop
unfolding rounds
mlf n e m a =
    rounds n 0 m.mlf_current_hash e
      (record { shortest_waiting_time = int_max; processed_requests = false }) m a
