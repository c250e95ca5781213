-- ===== src/Statistics/Counts.antt =====
-- What the statistics of statistics.c count.
use forwarding_explorer_agio.Prelude.{
  ℕ, ◌+◌, ◌≡◌, arith, List, [], ◌∷◌, if◌then◌else◌, ◌==◌, length,
}
use forwarding_explorer_agio.Data.{Request, Queue, fields, rt_read}
use forwarding_explorer_agio.Statistics.{
  GlobalState, update_global_stats_newreq, update_local_stats, statistics_newreq,
}

-- Requests of one queue that arrive one after another.
unfoldable pub arrive : List Request → Queue → GlobalState → Queue × GlobalState
arrive [] q g = (q, g)
arrive (r ∷ rs) q g = let next = statistics_newreq r q g in arrive rs next.0 next.1

-- How many of them are reads, counted on the requests themselves.
unfoldable pub reads_among : List Request → ℕ
reads_among [] = 0
reads_among (r ∷ rs) = (if (fields r).type == rt_read then 1 else 0) + reads_among rs

unfoldable pub writes_among : List Request → ℕ
writes_among [] = 0
writes_among (r ∷ rs) = (if (fields r).type == rt_read then 0 else 1) + writes_among rs

-- After a sequence of arrivals, the four counters have gone up by what the sequence holds: the
-- queue's and the global number of requests by its length, the reads and the writes by its reads
-- and its writes.
pub arrive-counts :
    (rs : List Request) (q : Queue) (g : GlobalState)
    → ((arrive rs q g).0.stats.receivedreq_nb ≡ q.stats.receivedreq_nb + length rs)
      × ((arrive rs q g).1.global_stats.total_reqnb ≡ g.global_stats.total_reqnb + length rs)
      × ((arrive rs q g).1.global_stats.reads ≡ g.global_stats.reads + reads_among rs)
      × ((arrive rs q g).1.global_stats.writes ≡ g.global_stats.writes + writes_among rs)
unfolding arrive reads_among writes_among statistics_newreq update_global_stats_newreq
    update_local_stats
arrive-counts [] q g = (omega arith, omega arith, omega arith, omega arith)
arrive-counts (r ∷ rs) q g =
    let next = statistics_newreq r q g in
    let (a, b, c, d) = arrive-counts rs next.0 next.1 in
    (omega (arith, a), omega (arith, b), ground (arith, c), ground (arith, d))
