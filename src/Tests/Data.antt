-- ===== src/Tests/Data.antt =====
-- The requests, queues and files of the tests.
use forwarding_explorer_agio.Prelude.{ℕ, ◌+◌, List, [], ◌∷◌}
use forwarding_explorer_agio.Prelude.Int.{pos, negsuc}
use forwarding_explorer_agio.Aggregation.{filled}
use forwarding_explorer_agio.Data.{
  FileId, Request, request, Requests, nil, cons, Timespec, QueueStatistics, Queue, File,
}

abbrev pub handle : FileId
handle = 97 ∷ 98 ∷ []

abbrev pub other_handle : FileId
other_handle = 98 ∷ []

-- A single read of 10 bytes that arrived at time 5.
abbrev pub single : (offset identifier timestamp : ℕ) → Request
single offset identifier timestamp = filled handle 0 offset 10 identifier 5 0 timestamp

-- Two contiguous reads of 10 bytes in a virtual request.
abbrev pub virtual : (offset : ℕ) → Request
virtual offset =
    request
      (record {
        file_id = handle;
        arrival_time = 5;
        dispatch_timestamp = 0;
        type = 0;
        offset = offset;
        len = 20;
        queue_id = 0;
        user_id = 0;
        sched_factor = 0;
        timestamp = 4;
        reqnb = 2;
      })
      (cons (single offset 71 2) (cons (single (offset + 10) 72 3) nil))

abbrev pub one_second : Timespec
one_second = record { tv_sec = 1; tv_nsec = 0 }

abbrev pub no_statistics : QueueStatistics
no_statistics = record {
  processedreq_nb = 0;
  receivedreq_nb = 0;
  processed_req_size = 0;
  processed_bandwidth = negsuc 0;
  releasedreq_nb = 0;
  avg_req_size = negsuc 0;
  avg_time_between_requests = negsuc 0;
  avg_distance = negsuc 0;
  aggs_no = 0;
  avg_agg_size = negsuc 0;
}

abbrev pub queue_with : (list dispatch : Requests) (size : ℕ) → Queue
queue_with list dispatch size = record {
  list = list;
  dispatch = dispatch;
  laststartoff = 0;
  lastfinaloff = 0;
  predictedoff = 0;
  nextquantum = 0;
  shift_phenomena = 0;
  better_aggregation = 0;
  stats = no_statistics;
  current_size = pos size;
  lastaggregation = 0;
  best_agg = 0;
  last_req_time = one_second;
  last_received_finaloffset = 0;
}

-- A file with a virtual read and a single one in the read queue, and two reads with the user.
abbrev pub file_with : FileId → File
file_with file_id = record {
  file_id = file_id;
  read_queue =
      queue_with (cons (virtual 0) (cons (single 40 73 5) nil))
        (cons (single 80 74 6) (cons (single 100 75 7) nil)) 30;
  write_queue = queue_with nil nil 0;
  timeline_reqnb = pos 3;
  waiting_time = 0;
  waiting_start = 0;
  first_request_time = 5;
}

abbrev pub files : List File
files = file_with handle ∷ file_with other_handle ∷ []
