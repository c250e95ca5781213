-- ===== src/Loops.antt =====
-- TO.c, NOOP.c and SW.c: the loops that take one request after another out of the timeline.
pub mod Draining
pub mod Opening
pub mod Session
pub mod Filling
use forwarding_explorer_agio.Prelude.{
  ℕ, zero, suc, Bool, true, false, not, Option, none, some, List, [], ◌++◌, if◌then◌else◌,
}
use forwarding_explorer_agio.Prelude.Int.{ℤ, pos, negsuc, ltb_ℤ}
use forwarding_explorer_agio.Data.{File, Request, Requests, nil, cons, fields}
use forwarding_explorer_agio.Entry.{give_back}
use forwarding_explorer_agio.Hash.{get_hashtable_position}
use forwarding_explorer_agio.Process.{Callback}
use forwarding_explorer_agio.Requests.{is_empty}
use forwarding_explorer_agio.State.{Agios, file_of}
use forwarding_explorer_agio.Timeline.{timeline_oldest_req}

-- What the rounds of a loop meet: the callbacks, and by round the time and what step 2 returns.
pub record Rounds : Type 0 where
  pub has_list_cb : Bool
  pub now : ℕ → ℕ
  pub stops : ℕ → Bool

pub data Loop : Type 0 where
  -- there was no fuel left
  running : Loop
  -- a NULL was followed, or the assertion failed
  fault : Loop
  -- it returned in this state, after these calls of the callbacks
  returned : Agios → List Callback → Loop

abbrev pub after_calls : List Callback → Loop → Loop
after_calls cs running = running
after_calls cs fault = fault
after_calls cs (returned a ds) = returned a (cs ++ ds)

abbrev pub give_to :
    Bool → (now : ℕ) → Request → Agios → Option File → Option (Agios × List Callback)
give_to has_list_cb now r a none = none
give_to has_list_cb now r a (some f) =
    give_back has_list_cb r (get_hashtable_position (fields r).file_id) now f a

abbrev pub give_first :
    Bool → (now : ℕ) → Agios → Option (Request × Requests) → Option (Agios × List Callback)
give_first has_list_cb now a none = none
give_first has_list_cb now a (some (r, q)) =
    give_to has_list_cb now r (record a { timeline = q }) (file_of (fields r).file_id a)

-- The body of both loops: the oldest request is taken and given to the user.
unfoldable pub process_oldest : Bool → (now : ℕ) → Agios → Option (Agios × List Callback)
unfolding timeline_oldest_req
process_oldest has_list_cb now a = give_first has_list_cb now a (timeline_oldest_req a.timeline)

-- A round of a loop in state `a`: whether there is one, what step 2 returns, what the body leaves,
-- and the rest of the loop.
abbrev pub turn :
    (go_on stop : Bool) → Option (Agios × List Callback) → Agios → (Agios → Loop) → Loop
turn false stop o a rest = returned a []
turn true stop none a rest = fault
turn true true (some (b, cs)) a rest = returned b cs
turn true false (some (b, cs)) a rest = after_calls cs (rest b)

-- `n` is the fuel and `i` the number of the round.
unfoldable pub timeorder : (n i : ℕ) → Rounds → Agios → Loop
timeorder zero i e a = running
timeorder (suc n) i e a =
    turn (ltb_ℤ (pos 0) a.counters.current_reqnb) (e.stops i)
      (process_oldest e.has_list_cb (e.now i) a) a (λ b. timeorder n (suc i) e b)

unfoldable pub noop : (n i : ℕ) → Rounds → Agios → Loop
noop zero i e a = running
noop (suc n) i e a =
    turn (not (is_empty a.timeline)) (e.stops i) (process_oldest e.has_list_cb (e.now i) a) a
      (λ b. noop n (suc i) e b)

-- SW.c: SW differs from TO only in where a request is inserted.
unfoldable pub sw : (n i : ℕ) → Rounds → Agios → Loop
unfolding timeorder
sw n i e a = timeorder n i e a
