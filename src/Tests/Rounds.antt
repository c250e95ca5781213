-- ===== src/Tests/Rounds.antt =====
-- The theorems on waiting times, windows, periods, quanta and the helpers.
use forwarding_explorer_agio.Prelude.{
  ℕ, ◌<◌, ◌≡◌, refl, true, false, List, [], ◌∷◌, ◌+◌, ◌++◌, length, some, arith, take,
}
use forwarding_explorer_agio.Prelude.Int.{pos}
use forwarding_explorer_agio.Common.{
  second_ns, get_timespec2long, get_long2timespec, timespec_round_trip,
}
use forwarding_explorer_agio.Data.{File}
use forwarding_explorer_agio.Performance.{
  PerformanceEntry, Performance, performance_set_new_algorithm,
}
use forwarding_explorer_agio.Performance.Periods.{performance_set_new_algorithm-take}
use forwarding_explorer_agio.Process.{ProcessingInfo}
use forwarding_explorer_agio.Twins.{Twins}
use forwarding_explorer_agio.Waiting.{call_step2_for_info_list}
use forwarding_explorer_agio.Waiting.Progress.{goes_on, all_calls, call_step2_for_info_list-cut}
use forwarding_explorer_agio.Tests.Data.{handle, one_second, file_with}

-- A file whose last predicted offset is not where the next request starts.
abbrev idle : File
idle =
    let f = file_with handle in record f { read_queue = record (f.read_queue) { predictedoff = 5 } }

abbrev info : ℕ → ProcessingInfo
info i = record { user_ids = i ∷ []; reqnb = 1 }

call_step2_for_info_list-cut_example :
    (call_step2_for_info_list true (info 1 ∷ []) (goes_on (info 1 ∷ []) [])
      ≡ (all_calls true (info 1 ∷ []), false))
    × (call_step2_for_info_list true
          ((info 1 ∷ []) ++ info 2 ∷ info 3 ∷ [])
          (goes_on (info 1 ∷ []) (true ∷ []))
        ≡ (all_calls true ((info 1 ∷ []) ++ info 2 ∷ []), true))
call_step2_for_info_list-cut_example =
    call_step2_for_info_list-cut true (info 1 ∷ []) (info 2) (info 3 ∷ []) []

abbrev twins : Twins
twins = record { g_twins_first_req = false; g_current_twins_server = 1; g_window_start = 10 }

abbrev period : ℕ → PerformanceEntry
period t = record { timestamp = t; alg = 4; bandwidth = pos 8; size = 20; reqnb = 2 }

abbrev periods : List PerformanceEntry
periods = period 30 ∷ period 0 ∷ []

-- The counter still counts an entry of an earlier session.
abbrev recorded : Performance
recorded = record {
  performance_info = periods;
  performance_info_len = 3;
  agios_processed_reqnb = 4;
}

performance_set_new_algorithm-take_example :
    let kept =
      take 2
        (record { timestamp = 50; alg = 1; bandwidth = pos 0; size = 0; reqnb = 0 } ∷ periods) in
    performance_set_new_algorithm true 3 1 50 recorded
    ≡ some (
      true,
      record {
        performance_info = kept;
        performance_info_len = length kept + 1;
        agios_processed_reqnb = 0;
      },
    )
performance_set_new_algorithm-take_example =
    performance_set_new_algorithm-take 3 1 50 1 recorded refl (omega arith)

timespec_round_trip_example :
    (get_timespec2long (get_long2timespec 3000000007) ≡ 3000000007)
    × ((get_long2timespec 3000000007).tv_nsec < second_ns)
    × (get_long2timespec (get_timespec2long one_second) ≡ one_second)
timespec_round_trip_example = timespec_round_trip 3000000007 one_second (omega arith)
