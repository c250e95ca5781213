-- ===== src/Statistics.antt =====
-- statistics.c: statistics of one queue and of all accesses, updated when a request arrives and
-- after an aggregation.
pub mod Counts
use forwarding_explorer_agio.Prelude.{
  ℕ, ◌+◌, ◌-◌, Bool, true, false, List, [], ◌∷◌, map, ◌==◌, ltb, if◌then◌else◌,
}
use forwarding_explorer_agio.Prelude.Int.{ℤ, pos, negsuc, sub_ℕ, pos_part, neg_part}
use forwarding_explorer_agio.Data.{Timespec, QueueStatistics, Queue, File, Request, fields, rt_read}
use forwarding_explorer_agio.Common.{get_timespec2long, get_long2timespec, update_iterative_average}

pub record GlobalStatistics : Type 0 where
  pub total_reqnb : ℕ
  pub reads : ℕ
  pub writes : ℕ
  pub avg_time_between_requests : ℤ
  pub avg_request_size : ℤ

-- The file's globals: `global_stats` and `last_req`.
pub record GlobalState : Type 0 where
  pub global_stats : GlobalStatistics
  pub last_req : Timespec

-- `this_distance`, made non-negative.
abbrev pub distance : ℕ → ℕ → ℕ
distance a b = let d = sub_ℕ a b in pos_part d + neg_part d

-- The queue is `req->globalinfo`, and `stats` is in it.
unfoldable pub update_local_stats : Request → Queue → Queue
update_local_stats req queue =
    let r = fields req in
    let s = queue.stats in
    record queue {
      stats = record s {
        avg_time_between_requests =
            if ltb 1 s.receivedreq_nb
            then (update_iterative_average s.avg_time_between_requests
                (sub_ℕ r.arrival_time (get_timespec2long queue.last_req_time))
                (s.receivedreq_nb - 1))
            else s.avg_time_between_requests;
        avg_distance =
            if ltb 1 s.receivedreq_nb
            then (update_iterative_average s.avg_distance
                (pos (distance r.offset queue.last_received_finaloffset)) (s.receivedreq_nb - 1))
            else s.avg_distance;
        avg_req_size = update_iterative_average s.avg_req_size (pos r.len) s.receivedreq_nb;
      };
      last_req_time = get_long2timespec r.arrival_time;
      last_received_finaloffset = r.offset + r.len;
    }

unfoldable pub update_global_stats_newreq : Request → GlobalState → GlobalState
update_global_stats_newreq req g =
    let r = fields req in
    let s = g.global_stats in
    let n = s.total_reqnb + 1 in
    record {
      global_stats = record {
        total_reqnb = n;
        reads = if r.type == rt_read then s.reads + 1 else s.reads;
        writes = if r.type == rt_read then s.writes else s.writes + 1;
        avg_time_between_requests =
            if ltb 1 n
            then (update_iterative_average s.avg_time_between_requests
                (sub_ℕ r.arrival_time (get_timespec2long g.last_req)) (n - 1))
            else s.avg_time_between_requests;
        avg_request_size = update_iterative_average s.avg_request_size (pos r.len) n;
      };
      last_req = get_long2timespec r.arrival_time;
    }

unfoldable pub statistics_newreq : Request → Queue → GlobalState → Queue × GlobalState
statistics_newreq req queue g =
    let s = queue.stats in
    let counted = record queue { stats = record s { receivedreq_nb = s.receivedreq_nb + 1 } } in
    (update_local_stats req counted, update_global_stats_newreq req g)

unfoldable pub reset_global_stats : GlobalState → GlobalState
reset_global_stats g = record g {
  global_stats = record {
    total_reqnb = 0;
    reads = 0;
    writes = 0;
    avg_time_between_requests = negsuc 0;
    avg_request_size = negsuc 0;
  };
}

unfoldable pub reset_stats_queue : Queue → Queue
reset_stats_queue queue = record queue {
  stats = record {
    processedreq_nb = 0;
    receivedreq_nb = 0;
    processed_req_size = 0;
    processed_bandwidth = negsuc 0;
    releasedreq_nb = 0;
    avg_req_size = negsuc 0;
    avg_time_between_requests = negsuc 0;
    avg_distance = negsuc 0;
    aggs_no = 0;
    avg_agg_size = negsuc 0;
  };
}

unfoldable pub reset_file : File → File
unfolding reset_stats_queue
reset_file f = record f {
  read_queue = reset_stats_queue f.read_queue;
  write_queue = reset_stats_queue f.write_queue;
}

unfoldable pub reset_all_statistics :
    List (List File) → GlobalState → List (List File) × GlobalState
unfolding reset_file reset_global_stats
reset_all_statistics hashlist g = (map (map reset_file) hashlist, reset_global_stats g)

unfoldable pub stats_aggregation : Queue → Queue
stats_aggregation related =
    let s = related.stats in
    if ltb 1 related.lastaggregation
    then record related {
      stats = record s {
        aggs_no = s.aggs_no + 1;
        avg_agg_size =
            update_iterative_average s.avg_agg_size (pos related.lastaggregation) (s.aggs_no + 1);
      };
      best_agg =
          if ltb related.best_agg related.lastaggregation
          then related.lastaggregation
          else related.best_agg;
    }
    else related
