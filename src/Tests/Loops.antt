-- ===== src/Tests/Loops.antt =====
-- The theorems on the loops, in a state with a virtual and a single request.
use forwarding_explorer_agio.Prelude.{ℕ, zero, suc, refl, true, false, List, [], ◌∷◌, arith}
use forwarding_explorer_agio.Prelude.Int.{pos, negsuc}
use forwarding_explorer_agio.Data.{Requests, nil, cons, File}
use forwarding_explorer_agio.Hash.{get_hashtable_position, calculate_hash}
use forwarding_explorer_agio.Loops.{Rounds, timeorder}
use forwarding_explorer_agio.Loops.Draining.{IsKnown, AllKnown, Drained, timeorder-Drained}
use forwarding_explorer_agio.Schedulers.{to_scheduler, timeorder as timeorder_schedule, no_init}
use forwarding_explorer_agio.State.{Agios, file_of}
use forwarding_explorer_agio.Files.{find_file}
use forwarding_explorer_agio.Tests.Data.{handle, single, virtual, one_second, files}

abbrev queued : Requests
queued = cons (virtual 0) (cons (single 40 73 5) nil)

-- The files stand on the line of the handle, which is the last one here.
abbrev pub lines : ℕ → List (List File)
lines zero = files ∷ []
lines (suc n) = [] ∷ lines n

abbrev pub state : Agios
state = record {
  hashlist = lines 31;
  timeline = queued;
  multi_timeline = [];
  counters = record { current_reqnb = pos 3; current_filenb = pos 1; hashlist_reqcounter = [] };
  g_last_timestamp = 8;
  statistics = record {
    global_stats = record {
      total_reqnb = 0;
      reads = 0;
      writes = 0;
      avg_time_between_requests = negsuc 0;
      avg_request_size = negsuc 0;
    };
    last_req = one_second;
  };
  performance = record {
    performance_info = [];
    performance_info_len = 0;
    agios_processed_reqnb = 0;
  };
  traced = [];
  current_alg = to_scheduler;
  current_scheduler = record {
    name = "TO";
    index = to_scheduler;
    init = no_init;
    schedule = timeorder_schedule;
    max_aggreg_size = 1;
    needs_hashtable = false;
    can_be_dynamically_selected = true;
    is_dynamic = false;
  };
}

abbrev pub rounds : Rounds
rounds = record { has_list_cb = true; now = λ i. i; stops = λ i. false }

handle-IsKnown : IsKnown state handle
unfolding file_of find_file get_hashtable_position calculate_hash
handle-IsKnown = λ e. cc

state-AllKnown : AllKnown state queued
state-AllKnown = (
  (refl, omega arith, (refl, omega arith, (refl, omega arith, tt))),
  handle-IsKnown,
  (refl, handle-IsKnown, tt),
)

timeorder-Drained_example : Drained queued (timeorder 3 0 rounds state)
timeorder-Drained_example =
    timeorder-Drained 3 0 rounds state (λ j. refl) state-AllKnown refl (omega arith)
