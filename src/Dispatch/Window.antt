-- ===== src/Dispatch/Window.antt =====
-- The loop of TWINS.c serves the server of the window and leaves the others alone.
use forwarding_explorer_agio.Prelude.{ℕ, ◌-◌, ◌<◌, ◌≡◌, false, List, get_or, set}
use forwarding_explorer_agio.Data.{Requests, nil}
use forwarding_explorer_agio.Dispatch.{Times, TwinsLoop, returned, window_left, twins}
use forwarding_explorer_agio.Loops.Draining.{identifiers, Round}
use forwarding_explorer_agio.Process.{Callback}
use forwarding_explorer_agio.Process.Delivery.{delivered}
use forwarding_explorer_agio.State.{Agios}
use forwarding_explorer_agio.Timeline.{timeline_oldest_req}
use forwarding_explorer_agio.Twins.{Twins, Round as TwinsRound, take_from}

-- The window is set up, and lasts at each time that the loop reads.
pub record Lasts (e : Times) (config_twins_window : ℕ) (t : Twins) : Type 0 where
  pub begun : t.g_twins_first_req ≡ false
  pub within : (i : ℕ) → e.now i - t.g_window_start < config_twins_window

-- A round on the server of the window.
abbrev take_round : List Requests → Twins → TwinsRound
take_round qs u = record {
  twins = u;
  taken =
      take_from u.g_current_twins_server qs
        (timeline_oldest_req (get_or qs u.g_current_twins_server nil));
}

-- What the loop returns when nothing stops it: the queue of the server is empty, the others are as
-- they were, and the calls told the user every request of it.
pub record Served (window : ℕ) (e : Times) (t : Twins) (q : Requests) (a : Agios) (l : TwinsLoop)
    : Type 0 where
  pub state : Agios
  pub calls : List Callback
  pub last : ℕ
  pub returns : l ≡ returned t state calls (window_left window (e.now_left last) t)
  pub queues : state.multi_timeline ≡ set a.multi_timeline t.g_current_twins_server nil
  pub told : delivered calls ≡ identifiers q
