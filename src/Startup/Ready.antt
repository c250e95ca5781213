-- ===== src/Startup/Ready.antt =====
-- The library starts in a state from which a session under TO works.
use forwarding_explorer_agio.Prelude.{
  ℕ, zero, suc, ◌+◌, ◌≤◌, ◌≡◌, refl, sym, ap, ◌∙◌, Bool, true, false, some, List, [], replicate,
  get_or, length, ltb, length-replicate, Bool-cases, inl, inr,
}
use forwarding_explorer_agio.Prelude.Int.{pos}
use forwarding_explorer_agio.Data.{Requests, nil, File, Timespec}
use forwarding_explorer_agio.Files.Lookup.{IsLine}
use forwarding_explorer_agio.Hash.{agios_hash_entries}
use forwarding_explorer_agio.Loops.Session.{IsReady}
use forwarding_explorer_agio.Schedulers.{
  Init, io_schedulers, to_scheduler, find_io_scheduler, initialize_scheduler,
}
use forwarding_explorer_agio.Startup.{
  Memory, hashtable_init, timeline_init, allocate_data_structures,
}
use forwarding_explorer_agio.State.{Agios}
use forwarding_explorer_agio.Statistics.{reset_global_stats}
use forwarding_explorer_agio.Loops.Draining.{AllKnown, held}
use mathlib.Core.Path.{subst}
use forwarding_explorer_agio.Thread.{
  Limits, Worker, with_performance, set_new_algorithm, at_work, start_thread,
}
use forwarding_explorer_agio.Common.{get_timespec2long}
use forwarding_explorer_agio.Performance.{Performance, performance_set_new_algorithm}
use forwarding_explorer_agio.Performance.Periods.{performance_set_new_algorithm-take}

lines-IsLine : (n h : ℕ) → IsLine (get_or (replicate n []) h [])
lines-IsLine zero h = tt
lines-IsLine (suc n) zero = tt
lines-IsLine (suc n) (suc h) = lines-IsLine n h

-- All memory is there.
abbrev pub AllGiven : Memory → Type 0
AllGiven m =
    (m.hashlist ≡ true)
    × (m.hashlist_locks ≡ true)
    × (m.hashlist_reqcounter ≡ true)
    × (m.multi_timeline ≡ true)

-- What the structures are after their start.
record IsFresh (a : Agios) : Type 0 where
  hashlist : a.hashlist ≡ replicate agios_hash_entries []
  timeline : a.timeline ≡ nil
  reqnb : a.counters.current_reqnb ≡ pos 0

-- The state after the start, with these queues for TWINS.
abbrev fresh : List Requests → Agios → Agios
fresh qs a = record a {
  hashlist = replicate agios_hash_entries [];
  timeline = nil;
  multi_timeline = qs;
  counters = record {
    current_reqnb = pos 0;
    current_filenb = pos 0;
    hashlist_reqcounter = replicate agios_hash_entries (pos 0);
  };
  statistics = reset_global_stats a.statistics;
}

fresh-IsFresh : (qs : List Requests) (a : Agios) → IsFresh (fresh qs a)
fresh-IsFresh qs a = record { hashlist = refl; timeline = refl; reqnb = refl }

allocate_data_structures-IsFresh :
    (m : Memory) (max_queue_id : ℕ) (a : Agios)
    → AllGiven m
    → (b : Agios) × (allocate_data_structures m max_queue_id a ≡ some b)
      × IsFresh b
      × (b.performance ≡ a.performance)
unfolding allocate_data_structures hashtable_init timeline_init
allocate_data_structures-IsFresh m q a h = elim (Bool-cases (ltb 0 q)) [
  | inl queues ↦ (
    fresh (replicate (suc q) nil) a,
    simp (queues, h.0, h.1, h.2, h.3),
    fresh-IsFresh (replicate (suc q) nil) a,
    refl,
  )
  | inr none_asked ↦ (
    fresh a.multi_timeline a,
    simp (none_asked, h.0, h.1, h.2),
    fresh-IsFresh a.multi_timeline a,
    refl,
  )
]

AllKnown-empty : (x : Agios) (q : Requests) → q ≡ nil → AllKnown x q
AllKnown-empty x q e = subst (AllKnown x) (sym e) tt

-- The counter of the performance record is above the number of its entries by no more than `limit`.
abbrev pub IsRecord : (limit : ℕ) → Performance → Type 0
IsRecord limit p =
    (stale : ℕ) × (p.performance_info_len ≡ length p.performance_info + stale) × (stale ≤ limit)

set_new_algorithm-some :
    (c : Limits) (memory : Bool) (now : Timespec) (a : Agios)
    → IsRecord c.performance_values a.performance
    → (p : Performance) × (set_new_algorithm c memory now a ≡ some (record a { performance = p }))
unfolding performance_set_new_algorithm
set_new_algorithm-some c false now a h = (_, refl)
set_new_algorithm-some c true now a (stale, e, s) =
    let kept =
      performance_set_new_algorithm-take c.performance_values a.current_alg (get_timespec2long now)
        stale a.performance e s in
    (_, ap (with_performance a) kept)

-- With memory for everything, and a counter of the performance record that is above the number of its
-- entries by no more than the configured number, the structures are allocated, and the thread that is
-- configured for TO starts: the state is then one between two calls, from which the session under TO
-- proceeds.
pub start_thread-IsReady :
    (m : Memory) (max_queue_id : ℕ) (c : Limits) (run : Init → Bool) (memory : Bool)
    (now : Timespec) (starting : ℕ) (a : Agios)
    → AllGiven m
    → IsRecord c.performance_values a.performance
    → (b : Agios) × (w : Worker) × (allocate_data_structures m max_queue_id a ≡ some b)
      × (start_thread c io_schedulers run memory now to_scheduler starting b ≡ some w)
      × IsReady w.agios
unfolding start_thread initialize_scheduler find_io_scheduler io_schedulers
start_thread-IsReady m q c run memory now starting a h on_record =
    let (b, allocated, is_fresh, same) = allocate_data_structures-IsFresh m q a h in
    let (p, runs) =
      set_new_algorithm-some c memory now
        (record b {
          current_alg = to_scheduler;
          current_scheduler = get_or io_schedulers to_scheduler b.current_scheduler;
        })
        (subst (IsRecord c.performance_values) (sym same) on_record) in
    (
      b,
      _,
      allocated,
      ap (at_work (get_or io_schedulers to_scheduler b.current_scheduler) now) runs,
      record {
        alg = refl;
        hashtable = refl;
        width =
            ap length is_fresh.hashlist ∙ length-replicate {A = List File} agios_hash_entries [];
        lines = λ h.
            subst (λ ls. IsLine (get_or ls h [])) (sym is_fresh.hashlist)
              (lines-IsLine agios_hash_entries h);
        known = AllKnown-empty _ b.timeline is_fresh.timeline;
        counted = is_fresh.reqnb ∙ sym (ap (λ q. pos (held q)) is_fresh.timeline);
      },
    )
