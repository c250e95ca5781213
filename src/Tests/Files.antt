-- ===== src/Tests/Files.antt =====
-- The theorems on files, on a line of the hashtable with two files.
use forwarding_explorer_agio.Prelude.{
  if◌then◌else◌, ◌-◌, ◌/◌, ◌≤◌, ◌<◌, ◌≡◌, refl, true, false, List, [], ◌∷◌, some, arith,
}
use forwarding_explorer_agio.Prelude.Int.{pos, negsuc, ◌-ℤ◌}
use forwarding_explorer_agio.Data.{FileId, Request, nil, cons, File}
use forwarding_explorer_agio.Requests.{append, count}
use forwarding_explorer_agio.Files.{is_zero, Found, find_or_add, find_file, set_file}
use forwarding_explorer_agio.Files.Lookup.{IsLine, Finds, find_or_add-Finds}
use forwarding_explorer_agio.Hash.{
  get_hashtable_position, agios_hash_entries, get_hashtable_position_bounds,
}
use forwarding_explorer_agio.Process.{
  Counters, Step1, process_requests_step1, process_requests_step2, user_ids, parts,
}
use forwarding_explorer_agio.Process.Delivery.{delivered, Dispatched, CountsLine, process-delivers}
use forwarding_explorer_agio.Performance.{Performance}
use forwarding_explorer_agio.Performance.Periods.{CountedIn}
use forwarding_explorer_agio.Release.{related_queue, agios_release_request}
use forwarding_explorer_agio.Release.Found.{Finished, agios_release_request-Finished}
use forwarding_explorer_agio.Statistics.{GlobalState}
use forwarding_explorer_agio.Tests.Data.{handle, single, virtual, one_second, file_with, files}

abbrev third : FileId
third = 97 ∷ 99 ∷ []

find_or_add-Finds_example :
    (r : Found) × (find_or_add (some (file_with handle)) files third ≡ some r)
    × IsLine r.line
    × Finds third files r
find_or_add-Finds_example = find_or_add-Finds (file_with handle) third files (refl, tt)

get_hashtable_position_bounds_example :
    (get_hashtable_position handle < agios_hash_entries) × (get_hashtable_position handle ≤ 32)
get_hashtable_position_bounds_example = get_hashtable_position_bounds handle

abbrev counters : Counters
counters = record {
  current_reqnb = pos 6;
  current_filenb = pos 2;
  hashlist_reqcounter = pos 6 ∷ [];
}

process-delivers_example :
    (s : Step1) × (process_requests_step1 true (virtual 0) 0 9 (file_with handle) counters ≡ some s)
    × (delivered (process_requests_step2 false s.info) ≡ user_ids (parts (virtual 0)))
    × Dispatched (parts (virtual 0)) 9 0 (file_with handle) s.file
    × (count (parts (virtual 0)) ≡ 2)
    × (s.counters.current_reqnb ≡ pos 6 -ℤ pos 2)
    × CountsLine 0 2 counters s.counters
    × (s.counters.current_filenb
        ≡ (if is_zero s.file.timeline_reqnb then pos 2 -ℤ pos 1 else pos 2))
process-delivers_example =
    process-delivers false (virtual 0) 0 9 (file_with handle) counters
      (refl, omega arith, (refl, omega arith, (refl, omega arith, tt)))

abbrev performance : Performance
performance = record {
  performance_info =
      record { timestamp = 5; alg = 4; bandwidth = pos 8; size = 20; reqnb = 2 } ∷ [];
  performance_info_len = 1;
  agios_processed_reqnb = 0;
}

-- The second of the two requests that the user has is released.
agios_release_request-Finished_example :
    (f' : File) × (p' : Performance) × (agios_release_request handle 0 10 100 9 files performance
      ≡ some (record { ret = true; line = set_file f' files; performance = p' }))
    × CountedIn (single 100 75 7) (pos (10 / (9 - 5))) performance p'
    × (find_file handle (set_file f' files) ≡ some f')
    × Finished
        (single 100 75 7)
        (append (cons (single 80 74 6) nil) nil)
        (pos (10 / (9 - 5)))
        (file_with handle).read_queue
        (related_queue 0 f')
unfolding find_file
agios_release_request-Finished_example =
    agios_release_request-Finished handle 0 10 100 9 files performance (file_with handle)
      (cons (single 80 74 6) nil) (single 100 75 7) nil _ [] refl refl refl refl (refl, tt) refl
      (omega arith)

abbrev no_accesses : GlobalState
no_accesses = record {
  global_stats = record {
    total_reqnb = 0;
    reads = 0;
    writes = 0;
    avg_time_between_requests = negsuc 0;
    avg_request_size = negsuc 0;
  };
  last_req = one_second;
}

abbrev arrived : List Request
arrived = single 0 71 2 ∷ single 10 72 3 ∷ []
