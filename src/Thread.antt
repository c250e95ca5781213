-- ===== src/Thread.antt =====
-- agios_thread.c: the thread that calls the schedulers and sleeps between the calls.
pub mod Pauses
pub mod Turns
use forwarding_explorer_agio.Prelude.{
  ℕ, Bool, true, false, ◌&&◌, not, Option, none, some, List, [], ◌∷◌, ◌==◌, if◌then◌else◌,
}
use forwarding_explorer_agio.Prelude.Int.{ℤ, pos, negsuc, ltb_ℤ, ◌-ℤ◌, ◌*ℤ◌}
use forwarding_explorer_agio.Common.{
  agios_min, div_ℤ, mod_ℤ, second_ns, get_nanoelapsed, get_timespec2long,
}
use forwarding_explorer_agio.Data.{Request, Timespec}
use forwarding_explorer_agio.Migration.{change_selected_alg}
use forwarding_explorer_agio.Performance.{Performance, performance_set_new_algorithm}
use forwarding_explorer_agio.Schedulers.{Init, IoScheduler, twins_scheduler, initialize_scheduler}
use forwarding_explorer_agio.State.{Agios}
use forwarding_explorer_agio.Statistics.{reset_all_statistics}
use forwarding_explorer_agio.Timeline.{wrap_int32}

-- The parameters that the thread reads.
pub record Limits : Type 0 where
  pub select_algorithm_period : ℤ
  pub select_algorithm_min_reqnumber : ℤ
  pub waiting_time : ℤ
  pub sw_size : ℕ
  pub performance_values : ℕ

unfoldable pub is_time_to_change_scheduler :
    Limits
    → (now : Timespec) → (g_dynamic_scheduler : IoScheduler) → (agios_processed_reqnb : ℕ)
    → (g_last_algorithm_update : Timespec) → Bool
unfolding get_nanoelapsed
is_time_to_change_scheduler c now dynamic processed last_update =
    if dynamic.is_dynamic
      && not (ltb_ℤ c.select_algorithm_period (pos 0))
      && not (ltb_ℤ (pos processed) c.select_algorithm_min_reqnumber)
    then not (ltb_ℤ (get_nanoelapsed now last_update) c.select_algorithm_period)
    else false

-- A timeout, which is negative for a negative time.
pub record Timeout : Type 0 where
  pub tv_sec : ℤ
  pub tv_nsec : ℤ

unfoldable pub fill_struct_timespec : (value_ns : ℤ) → Timeout
fill_struct_timespec value_ns = record {
  tv_sec = div_ℤ value_ns second_ns;
  tv_nsec = mod_ℤ value_ns second_ns;
}

-- How a turn of the loop ends: at once, with a sleep of a length, or with a wait for a new request until
-- a time of the clock, which is how `pthread_cond_timedwait` reads its argument.
pub data Pause : Type 0 where
  no_pause : Pause
  nanosleep : Timeout → Pause
  timedwait : (abstime : Timeout) → Pause

-- The variables of the thread.
pub record Worker : Type 0 where
  pub g_dynamic_scheduler : IoScheduler
  pub g_last_algorithm_update : Timespec
  pub remaining_time : ℤ
  pub agios : Agios

-- The pause after a scheduler has asked for one, and the one when there are no requests.
unfoldable pub pause_for_scheduler :
    (scheduler_waiting_time remaining_time : ℤ) → (current_alg : ℕ) → Pause
unfolding agios_min fill_struct_timespec
pause_for_scheduler waiting remaining alg =
    let timeout = fill_struct_timespec (wrap_int32 (agios_min waiting remaining)) in
    if ltb_ℤ (pos 0) waiting
    then if alg == twins_scheduler then timedwait timeout else nanosleep timeout
    else no_pause

unfoldable pub pause_when_idle : (config_waiting_time remaining_time : ℤ) → Pause
unfolding agios_min fill_struct_timespec
pause_when_idle config remaining = timedwait (
    if ltb_ℤ (pos 0) remaining
    then fill_struct_timespec (wrap_int32 (agios_min config remaining))
    else fill_struct_timespec config)

-- What a turn of the loop meets: the times that it reads, whether there is memory for the performance
-- record, the algorithm that a dynamic scheduler selects, and what the scheduler makes of the state,
-- with the time that it asks the thread to sleep; `none` is a fault.
pub record Environment : Type 0 where
  pub now : Timespec
  pub now_remaining : Timespec
  pub now_selected : Timespec
  pub now_changed : Timespec
  pub memory : Bool
  pub stored : Request → ℤ
  pub run : Init → Bool
  pub select_algorithm : Agios → ℕ
  pub schedule : Agios → Option (Agios × ℤ)

-- `performance_set_new_algorithm(current_alg)`.
abbrev pub with_performance : Agios → Option (Bool × Performance) → Option Agios
with_performance a none = none
with_performance a (some p) = some (record a { performance = p.1 })

abbrev pub set_new_algorithm : Limits → (memory : Bool) → (now : Timespec) → Agios → Option Agios
set_new_algorithm c memory now a = with_performance a (
    performance_set_new_algorithm memory c.performance_values a.current_alg (get_timespec2long now)
      a.performance)

abbrev pub no_statistics : Agios → Agios
no_statistics a =
    let s = reset_all_statistics a.hashlist a.statistics in
    record a { hashlist = s.0; statistics = s.1 }

abbrev pub changed : Limits → Environment → Worker → Option Agios → Option Worker
changed c e w none = none
changed c e w (some b) = elim (set_new_algorithm c e.memory e.now_selected b) [
  | none ↦ none
  | some d ↦ some (record w {
    agios = no_statistics d;
    g_last_algorithm_update = e.now_changed;
    remaining_time = wrap_int32 c.select_algorithm_period;
  })
]

abbrev pub at_least_0 : ℤ → ℤ
at_least_0 v = if ltb_ℤ v (pos 0) then pos 0 else v

-- The part of a turn that belongs to a dynamic scheduler.
unfoldable pub reselect : Limits → List IoScheduler → Environment → Worker → Option Worker
unfolding is_time_to_change_scheduler
reselect c table e w =
    let elapsed = get_nanoelapsed e.now_remaining w.g_last_algorithm_update in
    let processed = w.agios.performance.agios_processed_reqnb in
    if w.g_dynamic_scheduler.is_dynamic
    then if is_time_to_change_scheduler c e.now w.g_dynamic_scheduler processed
        w.g_last_algorithm_update
      then changed c e w
          (change_selected_alg e.stored c.sw_size e.run table (e.select_algorithm w.agios) w.agios)
      else some (record w {
        remaining_time = at_least_0 (wrap_int32 (c.select_algorithm_period -ℤ elapsed));
      })
    else some w

abbrev pub scheduled : Worker → Option (Agios × ℤ) → Option (Worker × Pause)
scheduled w none = none
scheduled w (some (b, wait)) =
    some
      (record w { agios = b }, pause_for_scheduler (wrap_int32 wait) w.remaining_time b.current_alg)

unfoldable pub serve : Limits → Environment → Worker → Option (Worker × Pause)
unfolding pause_for_scheduler pause_when_idle
serve c e w =
    if ltb_ℤ (pos 0) w.agios.counters.current_reqnb
    then scheduled w (e.schedule w.agios)
    else some (w, pause_when_idle c.waiting_time w.remaining_time)

abbrev pub serve_next : Limits → Environment → Option Worker → Option (Worker × Pause)
serve_next c e none = none
serve_next c e (some w) = serve c e w

unfoldable pub turn : Limits → List IoScheduler → Environment → Worker → Option (Worker × Pause)
unfolding reselect serve
turn c table e w = serve_next c e (reselect c table e w)

abbrev pub add_pause : Option (Worker × List Pause) → Pause → Option (Worker × List Pause)
add_pause none p = none
add_pause (some (w, ps)) p = some (w, p ∷ ps)

abbrev pub turn_next :
    Option (Worker × Pause) → (Worker → Option (Worker × List Pause)) → Option (Worker × List Pause)
turn_next none k = none
turn_next (some (w, p)) k = add_pause (k w) p

-- The turns that the loop takes until `g_agios_thread_stop` is set, and the pauses between them.
unfoldable pub turns :
    Limits → List IoScheduler → List Environment → Worker → Option (Worker × List Pause)
unfolding turn
turns c table [] w = some (w, [])
turns c table (e ∷ es) w = turn_next (turn c table e w) (λ v. turns c table es v)

abbrev pub at_work : IoScheduler → (now : Timespec) → Option Agios → Option Worker
at_work dynamic now none = none
at_work dynamic now (some b) = some (record {
  g_dynamic_scheduler = dynamic;
  g_last_algorithm_update = now;
  remaining_time = pos 0;
  agios = b;
})

-- The algorithm in use, and the state when the locks are given back for the first time.
abbrev pub started :
    Limits
    → (memory : Bool) → (now : Timespec) → (alg : ℕ) → IoScheduler
    → Agios
    → Option IoScheduler
    → Option Worker
started c memory now alg dynamic a none = none
started c memory now alg dynamic a (some s) =
    at_work dynamic now
      (set_new_algorithm c memory now (record a { current_alg = alg; current_scheduler = s }))

-- The start of `agios_thread`. The time of the last change is not set without a dynamic scheduler,
-- where it is not read either.
unfoldable pub start_thread :
    Limits
    → List IoScheduler
    → (run : Init → Bool) → (memory : Bool) → (now : Timespec)
    → (default_algorithm starting_algorithm : ℕ) → Agios
    → Option Worker
unfolding initialize_scheduler
start_thread c table run memory now default starting a =
    elim (initialize_scheduler run table default) [
      | none ↦ none
      | some s ↦
          if s.is_dynamic
          then started c memory now starting s a (initialize_scheduler run table starting)
          else started c memory now default s a (some s)
    ]

abbrev pub run_from :
    Limits → List IoScheduler → List Environment → Option Worker → Option (Worker × List Pause)
run_from c table es none = none
run_from c table es (some w) = turns c table es w

-- The whole thread.
unfoldable pub agios_thread :
    Limits
    → List IoScheduler
    → (run : Init → Bool) → (memory : Bool) → (now : Timespec)
    → (default_algorithm starting_algorithm : ℕ) → List Environment
    → Agios
    → Option (Worker × List Pause)
unfolding start_thread turns
agios_thread c table run memory now default starting es a =
    run_from c table es (start_thread c table run memory now default starting a)
