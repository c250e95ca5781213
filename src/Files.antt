-- ===== src/Files.antt =====
-- File structures and the collision list of a hashtable line: `init_queue_statistics`,
-- `init_queue`, `file_init`, `file_constructor` and `find_req_file` of agios_add_request.c.
-- The memory that `malloc` returns is an argument, since some fields are not initialised.
pub mod Lookup
use forwarding_explorer_agio.Prelude.{
  ℕ, ◌+◌, List, [], ◌∷◌, Bool, true, false, Option, none, some, ◌==◌, ltb, if◌then◌else◌,
}
use forwarding_explorer_agio.Prelude.Int.{ℤ, pos, negsuc, ◌+ℤ◌}
use forwarding_explorer_agio.Data.{FileId, Requests, nil, QueueStatistics, Queue, File, rt_read}

-- What `strcmp` says of two handles.
pub data Order : Type 0 where
  below same above : Order

abbrev pub strcmp : FileId → FileId → Order
strcmp [] [] = same
strcmp [] (b ∷ bs) = below
strcmp (a ∷ rest) [] = above
strcmp (a ∷ rest) (b ∷ bs) = if a == b then strcmp rest bs else if ltb a b then below else above

unfoldable pub init_queue_statistics : QueueStatistics → QueueStatistics
init_queue_statistics stats = record stats {
  processedreq_nb = 0;
  receivedreq_nb = 0;
  processed_req_size = 0;
  processed_bandwidth = negsuc 0;
  releasedreq_nb = 0;
  avg_req_size = negsuc 0;
  avg_time_between_requests = negsuc 0;
  avg_distance = negsuc 0;
  aggs_no = 0;
}

unfoldable pub init_queue : Queue → Queue
unfolding init_queue_statistics
init_queue queue = record queue {
  list = nil;
  dispatch = nil;
  laststartoff = 0;
  lastfinaloff = 0;
  predictedoff = 0;
  nextquantum = 0;
  current_size = pos 0;
  lastaggregation = 0;
  best_agg = 0;
  last_received_finaloffset = 0;
  shift_phenomena = 0;
  better_aggregation = 0;
  stats = init_queue_statistics queue.stats;
}

unfoldable pub file_init : File → FileId → File
unfolding init_queue
file_init req_file file_id = record req_file {
  file_id = file_id;
  first_request_time = 0;
  waiting_time = 0;
  timeline_reqnb = pos 0;
  read_queue = init_queue req_file.read_queue;
  write_queue = init_queue req_file.write_queue;
}

-- `memory` is the new structure as `malloc` left it, `none` if one of the two allocations failed.
unfoldable pub file_constructor : Option File → FileId → Option File
unfolding file_init
file_constructor none file_id = none
file_constructor (some req_file) file_id = some (file_init req_file file_id)

-- The file that the search of `find_req_file` stops at, or the line with a new one in its place.
pub record Found : Type 0 where
  pub line : List File
  pub req_file : File

abbrev pub skip : File → Option Found → Option Found
skip f none = none
skip f (some r) = some (record r { line = f ∷ r.line })

abbrev pub add_before : List File → Option File → Option Found
add_before line none = none
add_before line (some req_file) = some (record { line = req_file ∷ line; req_file = req_file })

-- The search and the insertion, before the counter of files is updated.
unfoldable pub find_or_add : Option File → List File → FileId → Option Found
find_or_add memory [] file_id = add_before [] (file_constructor memory file_id)
find_or_add memory (f ∷ fs) file_id = elim (strcmp f.file_id file_id) [
  | below ↦ skip f (find_or_add memory fs file_id)
  | same ↦ some (record { line = f ∷ fs; req_file = f })
  | above ↦ add_before (f ∷ fs) (file_constructor memory file_id)
]

abbrev pub is_zero : ℤ → Bool
is_zero (pos n) = n == 0
is_zero (negsuc n) = false

abbrev pub count_file : ℤ → Option Found → Option (Found × ℤ)
count_file current_filenb none = none
count_file current_filenb (some r) =
    some (r, if is_zero r.req_file.timeline_reqnb then current_filenb +ℤ pos 1 else current_filenb)

-- The second component is `current_filenb`.
unfoldable pub find_req_file : Option File → List File → FileId → ℤ → Option (Found × ℤ)
find_req_file memory hash_list file_id current_filenb =
    count_file current_filenb (find_or_add memory hash_list file_id)

-- The loop of agios_cancel_request.c and agios_release_request.c over the files of a line.
unfoldable pub find_file : FileId → List File → Option File
find_file file_id [] = none
find_file file_id (f ∷ fs) = elim (strcmp f.file_id file_id) [
  | same ↦ some f
  | _ ↦ find_file file_id fs
]

-- A write through the pointer to the file with this handle.
unfoldable pub set_file : File → List File → List File
set_file g [] = []
set_file g (f ∷ fs) = elim (strcmp f.file_id g.file_id) [ same ↦ g ∷ fs | _ ↦ f ∷ set_file g fs ]
