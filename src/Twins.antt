-- ===== src/Twins.antt =====
-- TWINS.c: time windows, in each of which the requests to one server are processed.
pub mod Windows
use forwarding_explorer_agio.Prelude.{
  ℕ, zero, suc, ◌+◌, ◌-◌, Bool, true, false, Option, none, some, List, leb, ltb, if◌then◌else◌,
  get_or, set,
}
use forwarding_explorer_agio.Data.{Request, Requests, nil, cons}
use forwarding_explorer_agio.Timeline.{timeline_oldest_req}

pub record Twins : Type 0 where
  pub g_twins_first_req : Bool
  pub g_current_twins_server : ℕ
  pub g_window_start : ℕ

unfoldable pub twins_init : Twins → Twins
twins_init t = record t { g_twins_first_req = true; g_current_twins_server = 0 }

-- The window at the start of a round: set up, moved on to the next server, or kept. The monotonic
-- clock is at or past the start of the window.
unfoldable pub set_window : (config_twins_window multi_timeline_size now : ℕ) → Twins → Twins
set_window window size now t =
    let next = t.g_current_twins_server + 1 in
    if t.g_twins_first_req
    then record { g_twins_first_req = false; g_current_twins_server = 0; g_window_start = now }
    else if leb window (now - t.g_window_start)
    then record t {
      g_window_start = now;
      g_current_twins_server = if leb size next then 0 else next;
    }
    else t

-- A round of the loop: the request to process and the queues without it, or `none` where the queue
-- of the current server is empty and the loop ends.
pub record Round : Type 0 where
  pub twins : Twins
  pub taken : Option (Request × List Requests)

abbrev pub take_from :
    ℕ → List Requests → Option (Request × Requests) → Option (Request × List Requests)
take_from i qs none = none
take_from i qs (some (r, q)) = some (r, set qs i q)

unfoldable pub twins_round :
    (config_twins_window multi_timeline_size now : ℕ) → Twins → List Requests → Round
unfolding set_window timeline_oldest_req
twins_round window size now t multi_timeline =
    let t' = set_window window size now t in
    let i = t'.g_current_twins_server in
    record {
      twins = t';
      taken = take_from i multi_timeline (timeline_oldest_req (get_or multi_timeline i nil));
    }
