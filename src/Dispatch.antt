-- ===== src/Dispatch.antt =====
-- TWINS.c and SJF.c: the loops of the schedulers that give one request after another to the user.
pub mod Window
pub mod FromShortest
use forwarding_explorer_agio.Prelude.{
  ℕ, zero, suc, Bool, true, false, ◌&&◌, Option, none, some, List, [], ◌∷◌, ◌++◌, length,
  if◌then◌else◌,
}
use forwarding_explorer_agio.Prelude.Int.{ℤ, pos, pos_part, ltb_ℤ, ◌-ℤ◌, sub_ℕ}
use forwarding_explorer_agio.Data.{File, Request, Requests, nil, cons, fields}
use forwarding_explorer_agio.Entry.{give_back}
use forwarding_explorer_agio.Files.{find_file}
use forwarding_explorer_agio.Loops.{Rounds, Loop, turn, give_to}
use forwarding_explorer_agio.Process.{Callback, queue_of, on_queue}
use forwarding_explorer_agio.State.{Agios, file_of, line}
use forwarding_explorer_agio.Sjf.{Choice, sjf_get_shortest_job}
use forwarding_explorer_agio.Timeline.{timeline_oldest_req}
use forwarding_explorer_agio.Twins.{Twins, twins_round}

-- What the rounds of a loop meet: the callbacks, and by round the times that the loop and step 1
-- read, the time when the loop is left, and what step 2 returns.
pub record Times : Type 0 where
  pub has_list_cb : Bool
  pub now : ℕ → ℕ
  pub now_sent : ℕ → ℕ
  pub now_left : ℕ → ℕ
  pub stops : ℕ → Bool

-- `TWINS` with what it returns.
pub data TwinsLoop : Type 0 where
  -- there was no fuel left
  running : TwinsLoop
  -- a NULL was followed
  fault : TwinsLoop
  returned : Twins → Agios → List Callback → (waiting_time : ℤ) → TwinsLoop

abbrev pub after_calls : List Callback → TwinsLoop → TwinsLoop
after_calls cs running = running
after_calls cs fault = fault
after_calls cs (returned t a ds wait) = returned t a (cs ++ ds) wait

-- The time until the end of the window.
abbrev pub window_left : (config_twins_window now : ℕ) → Twins → ℤ
window_left window now t = pos window -ℤ sub_ℕ now t.g_window_start

-- The request goes to the user, with its file.
abbrev pub send_taken :
    Bool → (now : ℕ) → Agios → Option (Request × List Requests) → Option (Agios × List Callback)
send_taken has_list_cb now a none = none
send_taken has_list_cb now a (some (r, qs)) =
    give_to has_list_cb now r (record a { multi_timeline = qs }) (file_of (fields r).file_id a)

abbrev pub continue_twins :
    (stop : Bool) → Twins → Option (Agios × List Callback) → (Agios → TwinsLoop) → TwinsLoop
continue_twins stop t none k = fault
continue_twins true t (some (b, cs)) k = returned t b cs (pos 0)
continue_twins false t (some (b, cs)) k = after_calls cs (k b)

-- The end of a round: with a request, or without one, where the loop is left.
abbrev pub serve_taken :
    (i : ℕ)
    → Times
    → (config_twins_window : ℕ) → Twins
    → Agios
    → Option (Request × List Requests)
    → (Agios → TwinsLoop)
    → TwinsLoop
serve_taken i e window t a none k = returned t a [] (window_left window (e.now_left i) t)
serve_taken i e window t a (some taken) k =
    continue_twins (e.stops i) t (send_taken e.has_list_cb (e.now_sent i) a (some taken)) k

-- `n` is the fuel and `i` the number of the round.
unfoldable pub twins : (n i : ℕ) → Times → (config_twins_window : ℕ) → Twins → Agios → TwinsLoop
unfolding twins_round
twins zero i e window t a = running
twins (suc n) i e window t a =
    let s = twins_round window (length a.multi_timeline) (e.now i) t a.multi_timeline in
    let after =
      serve_taken i e window s.twins a s.taken (λ b. twins n (suc i) e window s.twins b) in
    if ltb_ℤ (pos 0) a.counters.current_reqnb
    then after
    else returned t a [] (window_left window (e.now_left i) t)

-- `hashtable_del_req` for the first request of a queue of a file, which `give_back` then writes to the
-- hashtable.
abbrev pub set_list : (type : ℕ) → Requests → File → File
set_list type q f = on_queue type (λ queue. record queue { list = q }) f

abbrev pub send_first :
    Bool
    → (hash now type : ℕ) → Agios
    → File
    → Option (Request × Requests)
    → Option (Agios × List Callback)
send_first has_list_cb hash now type a f none = none
send_first has_list_cb hash now type a f (some (r, q)) =
    give_back has_list_cb r hash now (set_list type q f) a

abbrev pub send_from :
    Bool → (now : ℕ) → Choice → Agios → Option File → Option (Agios × List Callback)
send_from has_list_cb now c a none = none
send_from has_list_cb now c a (some f) =
    send_first has_list_cb c.hash now c.type a f (timeline_oldest_req (queue_of c.type f).list)

abbrev pub send_chosen : Bool → (now : ℕ) → Agios → Option Choice → Option (Agios × List Callback)
send_chosen has_list_cb now a none = some (a, [])
send_chosen has_list_cb now a (some c) =
    send_from has_list_cb now c a (find_file c.file_id (line c.hash a))

-- A round of `SJF`. `none` is the assertion that the queue is not empty.
unfoldable pub sjf_round : Bool → (now : ℕ) → Agios → Option (Agios × List Callback)
unfolding sjf_get_shortest_job give_back timeline_oldest_req find_file
sjf_round has_list_cb now a =
    send_chosen has_list_cb now a
      (sjf_get_shortest_job (pos_part a.counters.current_filenb) a.hashlist)

abbrev pub is_chosen : Option Choice → Bool
is_chosen none = false
is_chosen (some c) = true

-- Step 2, and so what it returns, belongs to a round with a queue only.
unfoldable pub sjf : (n i : ℕ) → Rounds → Agios → Loop
unfolding sjf_round
sjf zero i e a = Loop.running
sjf (suc n) i e a =
    turn (ltb_ℤ (pos 0) a.counters.current_reqnb)
      (is_chosen (sjf_get_shortest_job (pos_part a.counters.current_filenb) a.hashlist)
        && e.stops i)
      (sjf_round e.has_list_cb (e.now i) a) a (λ b. sjf n (suc i) e b)
