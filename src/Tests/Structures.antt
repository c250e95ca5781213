-- ===== src/Tests/Structures.antt =====
-- The theorems on lists, migrations and locks, on small concrete structures.
use forwarding_explorer_agio.Prelude.{
  ℕ, zero, suc, ◌≡◌, refl, sym, ◌∙◌, true, false, none, some, List, [], ◌∷◌, arith,
}
use forwarding_explorer_agio.Prelude.Int.{pos}
use forwarding_explorer_agio.Cancel.Queues.{AllShaped}
use forwarding_explorer_agio.Data.{nil, cons}
use forwarding_explorer_agio.Files.{find_file}
use forwarding_explorer_agio.Hash.{get_hashtable_position, calculate_hash}
use forwarding_explorer_agio.Links.{Store, init_agios_list_head, list_cleanup, agios_list_add}
use forwarding_explorer_agio.Links.Emptying.{Empties, list_cleanup-Empties}
use forwarding_explorer_agio.Links.Insertion.{agios_list_add-IsRing}
use forwarding_explorer_agio.Links.Refinement.{
  Command, add, add_tail, del, calls, apply_all, apply, Refines, calls-Refines,
}
use forwarding_explorer_agio.Links.Rings.{IsRing, init-IsRing}
use forwarding_explorer_agio.Locks.{
  lock_of, Caller, begins, waits, checks, holds, has, owns, System, update, IsFree, call, look,
  lock, done, Reach, start, later, caller, init,
}
use forwarding_explorer_agio.Locks.Adequate.{holds-lock_of}
use forwarding_explorer_agio.Loops.Draining.{IsKnown}
use forwarding_explorer_agio.Migration.{
  migrate_from_hashtable_to_timeline, migrate_from_timeline_to_hashtable,
}
use forwarding_explorer_agio.Migration.ToTimeline.{
  Migrated as MigratedToTimeline, LinesShaped, migrate_from_hashtable_to_timeline-Migrated,
}
use forwarding_explorer_agio.Migration.Lines.{LinesSorted}
use forwarding_explorer_agio.Migration.ToHashtable.{
  Migrated as MigratedToHashtable, migrate_from_timeline_to_hashtable-Migrated,
}
use forwarding_explorer_agio.Placement.Sorted.{IsQueue}
use forwarding_explorer_agio.Aggregation.Shape.{IsShaped}
use forwarding_explorer_agio.State.{Agios, file_of}
use forwarding_explorer_agio.Tests.Data.{single, virtual, file_with, handle}
use forwarding_explorer_agio.Tests.Loops.{state, lines}
use mathlib.Core.Option.{none-ne-some}

-- A store in which node 1 is an empty list.
abbrev nowhere : Store
nowhere = record { next = λ a. 0; prev = λ a. 0 }

abbrev one_list : Store
one_list = init_agios_list_head 1 nowhere

abbrev commands : List Command
commands = add 5 ∷ add_tail 6 ∷ add 7 ∷ del 5 ∷ []

calls-Refines_example :
    Refines 1 one_list (calls 1 commands one_list) (1 ∷ 5 ∷ 6 ∷ 7 ∷ 5 ∷ []) (7 ∷ 6 ∷ [])
unfolding apply_all apply
calls-Refines_example =
    calls-Refines 1 commands one_list [] (7 ∷ 6 ∷ []) (init-IsRing 1 nowhere) refl

two_nodes-IsRing : IsRing (agios_list_add 8 1 (agios_list_add 9 1 one_list)) 1 (8 ∷ 9 ∷ [])
two_nodes-IsRing =
    agios_list_add-IsRing (agios_list_add 9 1 one_list) 8 1 (9 ∷ [])
      (agios_list_add-IsRing one_list 9 1 [] (init-IsRing 1 nowhere) refl) refl

list_cleanup-Empties_example :
    Empties 1 (8 ∷ 9 ∷ []) (list_cleanup 3 1 (agios_list_add 8 1 (agios_list_add 9 1 one_list)))
list_cleanup-Empties_example =
    list_cleanup-Empties 3 1 (8 ∷ 9 ∷ []) (agios_list_add 8 1 (agios_list_add 9 1 one_list))
      two_nodes-IsRing (omega arith)

-- The requests are in the hashtable: the state after a change to TO, before the migration.
abbrev pub in_hashtable : Agios
in_hashtable = record state { timeline = nil }

virtual-IsShaped : IsShaped (virtual 0)
virtual-IsShaped = (refl, omega arith, (refl, omega arith, (refl, omega arith, tt)))

pub reads-AllShaped : AllShaped (file_with handle).read_queue.list
reads-AllShaped = (virtual-IsShaped, (refl, tt))

pub lines-LinesShaped : (n : ℕ) → LinesShaped (lines n)
lines-LinesShaped zero = ((reads-AllShaped, tt, (reads-AllShaped, tt, tt)), tt)
lines-LinesShaped (suc n) = (tt, lines-LinesShaped n)

migrate_from_hashtable_to_timeline-Migrated_example :
    MigratedToTimeline in_hashtable
      (migrate_from_hashtable_to_timeline (λ r. pos 0) 1000 in_hashtable)
migrate_from_hashtable_to_timeline-Migrated_example =
    migrate_from_hashtable_to_timeline-Migrated (λ r. pos 0) 1000 in_hashtable refl (omega arith)
      refl (lines-LinesShaped 31)

-- Two single requests in the timeline, and a scheduler with aggregations up to 16.
abbrev in_timeline : Agios
in_timeline = record state {
  timeline = cons (single 60 76 8) (cons (single 50 77 9) nil);
  current_scheduler = record (state.current_scheduler) {
    max_aggreg_size = 16;
    needs_hashtable = true;
  };
}

handle-IsKnown : IsKnown in_timeline handle
unfolding file_of find_file get_hashtable_position calculate_hash
handle-IsKnown = λ e. cc

reads-IsQueue : IsQueue 16 0 (file_with handle).read_queue.list
reads-IsQueue = (omega arith, omega arith, virtual-IsShaped, (omega arith, omega arith, refl, tt))

lines-LinesSorted : (n : ℕ) → LinesSorted 16 (lines n)
lines-LinesSorted zero = (((reads-IsQueue, tt), ((reads-IsQueue, tt), tt)), tt)
lines-LinesSorted (suc n) = (tt, lines-LinesSorted n)

migrate_from_timeline_to_hashtable-Migrated_example :
    (b : Agios) × (migrate_from_timeline_to_hashtable in_timeline ≡ some b)
    × MigratedToHashtable in_timeline b
migrate_from_timeline_to_hashtable-Migrated_example =
    migrate_from_timeline_to_hashtable-Migrated in_timeline (omega arith) (refl, (refl, tt))
      (refl, handle-IsKnown, (refl, handle-IsKnown, tt)) (lines-LinesSorted 31)

-- Caller 4 acquires the lock of line 2, step by step.
abbrev moved : System → Caller → System
moved s c = record s { callers = update s.callers 4 c }

abbrev looking : System
looking = moved (moved (init true) (begins 2)) (waits true 2)

looking-none : (j : ℕ) → has (looking.callers j) ≡ none
looking-none j = ground arith

looking-IsFree : IsFree looking (lock_of true 2)
looking-IsFree = record {
  callers = λ j e. none-ne-some (lock_of true 2) (sym (looking-none j) ∙ e);
  changer = refl;
}

abbrev holding : System
holding = moved (moved looking (checks true 2)) (holds true 2)

holding-Reach : Reach 64 true holding
holding-Reach =
    later
      (later (later (later start (caller 4 (call (omega arith)))) (caller 4 look))
        (caller 4 (lock looking-IsFree)))
      (caller 4 (done refl))

holds-lock_of_example :
    (true ≡ true)
    × (has (holding.callers 4) ≡ some (lock_of true 2))
    × ((j : ℕ) → has (holding.callers j) ≡ some (lock_of true 2) → 4 ≡ j)
    × (owns holding.changer (lock_of true 2) ≡ false)
holds-lock_of_example = holds-lock_of 64 true holding 4 true 2 holding-Reach refl
