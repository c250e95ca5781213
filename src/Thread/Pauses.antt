-- ===== src/Thread/Pauses.antt =====
-- agios_thread.c: the pauses between the turns of the thread, and that it never changes the algorithm.
use forwarding_explorer_agio.Prelude.{
  ℕ, zero, suc, ◌+◌, ◌*◌, ◌/◌, ◌%◌, ◌<◌, ◌≡◌, refl, sym, ap, ◌∙◌, inl, inr, Bool, true, false,
  Option, none, some, List, [], ◌∷◌, ◌==◌, arith, Bool-cases, if◌then◌else◌,
}
use forwarding_explorer_agio.Prelude.Int.{ℤ, pos, negsuc, ltb_ℤ}
use forwarding_explorer_agio.Common.{agios_min, second_ns}
use forwarding_explorer_agio.Data.{Timespec}
use forwarding_explorer_agio.Schedulers.{
  IoScheduler, io_schedulers, find_io_scheduler, twins_scheduler,
}
use mathlib.Core.Path.{subst}
use forwarding_explorer_agio.Schedulers.Table.{io_schedulers-round_trip}
use forwarding_explorer_agio.State.{Agios}
use forwarding_explorer_agio.Timeline.{wrap_int32}
use forwarding_explorer_agio.Thread.{
  Limits, Environment, Worker, Timeout, Pause, no_pause, nanosleep, timedwait, fill_struct_timespec,
  is_time_to_change_scheduler, pause_for_scheduler, pause_when_idle, add_pause, turn_next,
  scheduled, serve_next, reselect, serve, turn, turns,
}

-- With every algorithm of the table it is never time to change the scheduler.
pub is_time_to_change_scheduler-never :
    (c : Limits) (i : ℕ) (s : IoScheduler) (now : Timespec) (processed : ℕ) (last_update : Timespec)
    → find_io_scheduler io_schedulers i ≡ some s
    → is_time_to_change_scheduler c now s processed last_update ≡ false
unfolding is_time_to_change_scheduler
is_time_to_change_scheduler-never c i s now processed last_update found =
    let (_, _, _, fixed) = io_schedulers-round_trip i s found in rw fixed refl

-- A time that is not negative fills a struct of the same length, whose nanoseconds are less than a
-- second.
pub fill_struct_timespec-pos :
    (n : ℕ)
    → (fill_struct_timespec (pos n)
        ≡ record { tv_sec = pos (n / second_ns); tv_nsec = pos (n % second_ns) })
      × (n % second_ns < second_ns)
      × (n / second_ns * second_ns + n % second_ns ≡ n)
unfolding fill_struct_timespec
fill_struct_timespec-pos n = (refl, omega arith, omega arith)

-- No time at all, and the waiting time of the configuration.
abbrev pub no_time : Timeout
no_time = record { tv_sec = pos 0; tv_nsec = pos 0 }

agios_min-0 : (wait : ℤ) → ltb_ℤ (pos 0) wait ≡ true → agios_min wait (pos 0) ≡ pos 0
unfolding agios_min
agios_min-0 (pos zero) h = refl
agios_min-0 (pos (suc n)) h = ground arith
agios_min-0 (negsuc n) h = absurd (ground arith)

-- The time for which a scheduler asks, when it asks for some.
asks-no_time :
    (wait : ℤ) (alg : ℕ)
    → ltb_ℤ (pos 0) wait ≡ true
    → pause_for_scheduler wait (pos 0) alg
      ≡ (if alg == twins_scheduler then timedwait no_time else nanosleep no_time)
unfolding pause_for_scheduler fill_struct_timespec
asks-no_time wait alg h = rw (h, agios_min-0 wait h) refl

asks-nothing :
    (wait : ℤ) (alg : ℕ)
    → ltb_ℤ (pos 0) wait ≡ false
    → pause_for_scheduler wait (pos 0) alg ≡ no_pause
unfolding pause_for_scheduler
asks-nothing wait alg h = rw h refl

-- A pause of the thread with an algorithm that is not dynamic: it sleeps for no time at all, or it
-- waits for new requests, until the time 0 of the clock or until the time that has the number of the
-- configured waiting time.
pub data IsShort (config_waiting_time : ℤ) : Pause → Type 0 where
  awake : IsShort config_waiting_time no_pause
  asleep : IsShort config_waiting_time (nanosleep no_time)
  waiting : IsShort config_waiting_time (timedwait no_time)
  idle : IsShort config_waiting_time (timedwait (fill_struct_timespec config_waiting_time))

pause_for_scheduler-IsShort :
    (config wait : ℤ) (alg : ℕ) → IsShort config (pause_for_scheduler wait (pos 0) alg)
pause_for_scheduler-IsShort config wait alg = elim (Bool-cases (ltb_ℤ (pos 0) wait)) [
  | inl h ↦ subst (IsShort config) (sym (asks-no_time wait alg h)) (either (alg == twins_scheduler))
  | inr h ↦ subst (IsShort config) (sym (asks-nothing wait alg h)) awake
]
  where
    either : (b : Bool) → IsShort config (if b then timedwait no_time else nanosleep no_time)
    either true = waiting
    either false = asleep

-- The worker stays one whose scheduler is not dynamic.
pub record IsFixed (w : Worker) : Type 0 where
  pub scheduler : w.g_dynamic_scheduler.is_dynamic ≡ false
  pub remaining : w.remaining_time ≡ pos 0

abbrev TurnIsShort : ℤ → Option (Worker × Pause) → Type 0
TurnIsShort config none = Unit {0}
TurnIsShort config (some (v, p)) = IsFixed v × IsShort config p

abbrev pub AllShort : ℤ → List Pause → Type 0
AllShort config [] = Unit {0}
AllShort config (p ∷ ps) = IsShort config p × AllShort config ps

abbrev pub TurnsAreShort : ℤ → Option (Worker × List Pause) → Type 0
TurnsAreShort config none = Unit {0}
TurnsAreShort config (some (v, ps)) = (v.remaining_time ≡ pos 0) × AllShort config ps

scheduled-Short :
    (config : ℤ) (w : Worker) (o : Option (Agios × ℤ))
    → IsFixed w
    → TurnIsShort config (scheduled w o)
scheduled-Short config w none h = tt
scheduled-Short config w (some (b, wait)) h = (
  record { scheduler = h.scheduler; remaining = h.remaining },
  subst (λ r. IsShort config (pause_for_scheduler (wrap_int32 wait) r b.current_alg))
      (sym h.remaining) (pause_for_scheduler-IsShort config (wrap_int32 wait) b.current_alg),
)

pause_when_idle-0 :
    (config : ℤ) → pause_when_idle config (pos 0) ≡ timedwait (fill_struct_timespec config)
unfolding pause_when_idle
pause_when_idle-0 config = refl

serve-Short :
    (c : Limits) (e : Environment) (w : Worker)
    → IsFixed w
    → TurnIsShort c.waiting_time (serve c e w)
unfolding serve
serve-Short c e w h = elim (Bool-cases (ltb_ℤ (pos 0) w.agios.counters.current_reqnb)) [
  | inl some_left ↦ rw some_left (scheduled-Short c.waiting_time w (e.schedule w.agios) h)
  | inr empty ↦ rw empty (
    h,
    subst (IsShort c.waiting_time)
        (sym (ap (pause_when_idle c.waiting_time) h.remaining ∙ pause_when_idle-0 c.waiting_time))
        idle,
  )
]

reselect-IsFixed :
    (c : Limits) (table : List IoScheduler) (e : Environment) (w : Worker)
    → IsFixed w
    → reselect c table e w ≡ some w
unfolding reselect
reselect-IsFixed c table e w h = simp h.scheduler

turn-Short :
    (c : Limits) (table : List IoScheduler) (e : Environment) (w : Worker)
    → IsFixed w
    → TurnIsShort c.waiting_time (turn c table e w)
unfolding turn
turn-Short c table e w h =
    subst (λ o. TurnIsShort c.waiting_time (serve_next c e o))
      (sym (reselect-IsFixed c table e w h)) (serve-Short c e w h)

add_pause-Short :
    (config : ℤ) (o : Option (Worker × List Pause)) (p : Pause)
    → IsShort config p
    → TurnsAreShort config o
    → TurnsAreShort config (add_pause o p)
add_pause-Short config none p k l = tt
add_pause-Short config (some (v, ps)) p k l = (l.0, (k, l.1))

turn_next-Short :
    (config : ℤ) (o : Option (Worker × Pause)) (k : Worker → Option (Worker × List Pause))
    → TurnIsShort config o
    → ((v : Worker) → IsFixed v → TurnsAreShort config (k v))
    → TurnsAreShort config (turn_next o k)
turn_next-Short config none k h rest = tt
turn_next-Short config (some (v, p)) k h rest = add_pause-Short config (k v) p h.1 (rest v h.0)

pub turns-Fixed :
    (c : Limits) (table : List IoScheduler) (es : List Environment) (w : Worker)
    → IsFixed w
    → TurnsAreShort c.waiting_time (turns c table es w)
unfolding turns
turns-Fixed c table [] w h = (h.remaining, tt)
turns-Fixed c table (e ∷ es) w h =
    turn_next-Short c.waiting_time (turn c table e w) (λ v. turns c table es v)
      (turn-Short c table e w h) (λ v k. turns-Fixed c table es v k)
