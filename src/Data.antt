-- ===== src/Data.antt =====
-- The data structures of agios_request.h: requests, queues with their statistics, and files.
-- A C list of requests is a value of `Requests`, in list order from `head->next`; the field
-- `related` that links a request into its list has no counterpart. `globalinfo` points to the queue
-- of the request's file and type, so `globalinfo_eq` compares those. `agg_head` is never read.
use forwarding_explorer_agio.Prelude.{ℕ, List}
use forwarding_explorer_agio.Prelude.Int.{ℤ}

-- A file handle, as its bytes before the terminating 0.
abbrev pub FileId : Type 0
FileId = List ℕ

abbrev pub rt_read : ℕ
rt_read = 0

abbrev pub rt_write : ℕ
rt_write = 1

-- The scalar fields of `struct request_t`. `sched_factor` is the bit pattern of its `int32_t`.
pub record Fields : Type 0 where
  pub file_id : FileId
  pub arrival_time : ℕ
  pub dispatch_timestamp : ℕ
  pub type : ℕ
  pub offset : ℕ
  pub len : ℕ
  pub queue_id : ℕ
  pub user_id : ℕ
  pub sched_factor : ℕ
  pub timestamp : ℕ
  pub reqnb : ℕ

-- A request with its `reqs_list`, and a list of requests.
mutual
  pub data Request : Type 0 where
    request : Fields → Requests → Request

  pub data Requests : Type 0 where
    nil : Requests
    cons : Request → Requests → Requests

abbrev pub fields : Request → Fields
fields (request f s) = f

abbrev pub reqs_list : Request → Requests
reqs_list (request f s) = s

pub record Timespec : Type 0 where
  pub tv_sec : ℕ
  pub tv_nsec : ℕ

pub record QueueStatistics : Type 0 where
  pub processedreq_nb : ℕ
  pub receivedreq_nb : ℕ
  pub processed_req_size : ℕ
  pub processed_bandwidth : ℤ
  pub releasedreq_nb : ℕ
  pub avg_req_size : ℤ
  pub avg_time_between_requests : ℤ
  pub avg_distance : ℤ
  pub aggs_no : ℕ
  pub avg_agg_size : ℤ

pub record Queue : Type 0 where
  pub list : Requests
  pub dispatch : Requests
  pub laststartoff : ℕ
  pub lastfinaloff : ℕ
  pub predictedoff : ℕ
  pub nextquantum : ℕ
  pub shift_phenomena : ℕ
  pub better_aggregation : ℕ
  pub stats : QueueStatistics
  pub current_size : ℤ
  pub lastaggregation : ℕ
  pub best_agg : ℕ
  pub last_req_time : Timespec
  pub last_received_finaloffset : ℕ

pub record File : Type 0 where
  pub file_id : FileId
  pub read_queue : Queue
  pub write_queue : Queue
  pub timeline_reqnb : ℤ
  pub waiting_time : ℕ
  pub waiting_start : ℕ
  pub first_request_time : ℕ
