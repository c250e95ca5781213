-- ===== src/Timeline.antt =====
-- req_timeline.c: the queue of the schedulers that need no hashtable, and its order under each.
pub mod Arrival
pub mod Conservation
use forwarding_explorer_agio.Prelude.{
  ℕ, zero, suc, ◌+◌, ◌*◌, ◌/◌, ◌%◌, ◌-◌, ◌^◌, Bool, true, false, ◌&&◌, ◌||◌, not, Option, none,
  some, List, [], ◌∷◌, ◌==◌, ltb, leb, if◌then◌else◌, get_or, set,
}
use forwarding_explorer_agio.Prelude.Int.{ℤ, pos, negsuc, ltb_ℤ}
use forwarding_explorer_agio.Data.{FileId, Request, Requests, nil, cons, fields, rt_read}
use forwarding_explorer_agio.Files.{Order, same, strcmp}
use forwarding_explorer_agio.Requests.{is_empty, append, snoc}
use forwarding_explorer_agio.Aggregation.{check_aggregate, include_in_aggregation}
use forwarding_explorer_agio.Schedulers.{
  toagg_scheduler, sw_scheduler, noop_scheduler, twins_scheduler,
}

-- What `__timeline_add_req` reads of the scheduler and of the configuration.
pub record Mode : Type 0 where
  pub current_alg : ℕ
  pub max_aggreg_size : ℕ
  pub config_sw_size : ℕ

-- An `int32_t` from a wider number that is not negative.
abbrev pub to_int32 : ℕ → ℤ
to_int32 n = let w = n % 2 ^ 32 in if ltb w (2 ^ 31) then pos w else negsuc (2 ^ 32 - w - 1)

-- The same of any number.
abbrev pub wrap_int32 : ℤ → ℤ
wrap_int32 (pos n) = to_int32 n
wrap_int32 (negsuc n) = to_int32 (2 ^ 32 - suc n % 2 ^ 32)

-- The priority of the request by its time window and its queue. A window of size 0 is a division
-- by 0 in the source.
unfoldable pub sw_priority : ℕ → Request → ℤ
sw_priority config_sw_size req =
    to_int32 ((fields req).arrival_time / config_sw_size * 32768 + (fields req).queue_id)

-- `stored` is what the field `sw_priority` of a request in the queue holds: no code writes it, so it
-- is whatever its memory held before.
unfoldable pub sw_insert : (stored : Request → ℤ) → ℤ → Request → Requests → Requests
sw_insert stored p req nil = cons req nil
sw_insert stored p req (cons tmp q) =
    if ltb_ℤ p (stored tmp) then cons req (cons tmp q) else cons tmp (sw_insert stored p req q)

-- `tmp->globalinfo == req->globalinfo`: the same file, and both reads or both not.
abbrev pub same_file : FileId → FileId → Bool
same_file a b = elim (strcmp a b) [ same ↦ true | _ ↦ false ]

abbrev pub globalinfo_eq : Request → Request → Bool
globalinfo_eq a b =
    same_file (fields a).file_id (fields b).file_id
    && (((fields a).type == rt_read && (fields b).type == rt_read)
        || (not ((fields a).type == rt_read) && not ((fields b).type == rt_read)))

-- A request of the queue that can take the new one in.
unfoldable pub can_take : ℕ → Request → Request → Bool
can_take limit req tmp =
    globalinfo_eq tmp req
    && (ltb (fields tmp).reqnb limit && (check_aggregate req tmp || check_aggregate tmp req))

abbrev pub cons_first : Request → Option (Requests × ℕ) → Option (Requests × ℕ)
cons_first tmp none = none
cons_first tmp (some (q, g)) = some (cons tmp q, g)

-- The search of TO-agg: `none` where no request of the queue can take the new one in.
unfoldable pub toagg_insert : ℕ → Request → Requests → ℕ → Option (Requests × ℕ)
toagg_insert limit req nil g = none
toagg_insert limit req (cons tmp q) g =
    if can_take limit req tmp
    then some (cons (include_in_aggregation req tmp g).0 q, (include_in_aggregation req tmp g).1)
    else cons_first tmp (toagg_insert limit req q g)

-- By arrival order, for a queue that is rebuilt.
unfoldable pub timestamp_insert : Request → Requests → Requests
timestamp_insert req nil = cons req nil
timestamp_insert req (cons tmp q) =
    if ltb (fields req).timestamp (fields tmp).timestamp
    then cons req (cons tmp q)
    else cons tmp (timestamp_insert req q)

-- The timelines: the one that requests are added to, and those of TWINS.
pub record Timelines : Type 0 where
  pub this_timeline : Requests
  pub multi_timeline : List Requests
  pub g_last_timestamp : ℕ

-- What is left to do when no scheduler has its own rule: `given` says whether the file is given.
unfoldable pub place_rest : (given : Bool) → ℕ → Request → Requests → Requests
unfolding timestamp_insert
place_rest given alg req q =
    if not given || alg == noop_scheduler then snoc q req else timestamp_insert req q

-- The end of `__timeline_add_req`, for the algorithms that have one queue in arrival order.
unfoldable pub place_ordered : (given : Bool) → Mode → Request → Timelines → Timelines
unfolding place_rest toagg_insert
place_ordered given m req t =
    let rest = record t { this_timeline = place_rest given m.current_alg req t.this_timeline } in
    if m.current_alg == toagg_scheduler && ltb 1 m.max_aggreg_size
    then (elim (toagg_insert m.max_aggreg_size req t.this_timeline t.g_last_timestamp) [
      | none ↦ rest
      | some (q, g) ↦ record t { this_timeline = q; g_last_timestamp = g }
    ])
    else rest

-- `__timeline_add_req` after the file has been found. `given` says whether the caller gave the file,
-- which it does to move a request that is already known.
unfoldable pub timeline_place :
    (stored : Request → ℤ) → (given : Bool) → Mode → Request → Timelines → Timelines
unfolding place_ordered sw_insert sw_priority
timeline_place stored given m req t =
    if not given && m.current_alg == noop_scheduler
    then t
    else if m.current_alg == sw_scheduler
    then record t {
      this_timeline = sw_insert stored (sw_priority m.config_sw_size req) req t.this_timeline;
    }
    else if m.current_alg == twins_scheduler
    then record t {
      multi_timeline =
          set t.multi_timeline (fields req).queue_id
            (snoc (get_or t.multi_timeline (fields req).queue_id nil) req);
    }
    else place_ordered given m req t

-- The loop of `reorder_timeline` over the old queue: each request is added to the new one, as known.
unfoldable pub move_all : (stored : Request → ℤ) → Mode → Requests → Timelines → Timelines
move_all stored m nil t = t
move_all stored m (cons r q) t = move_all stored m q (timeline_place stored true m r t)

-- `none` where the new list is empty, as that of an empty timeline is and that of TWINS: its `prev`
-- is then the list itself, so that `timeline.prev` points to it when it has been freed.
unfoldable pub reorder_timeline : (stored : Request → ℤ) → Mode → Timelines → Option Timelines
unfolding move_all
reorder_timeline stored m t =
    let t' = move_all stored m t.this_timeline (record t { this_timeline = nil }) in
    if is_empty t'.this_timeline then none else some t'

-- The oldest request and the timeline without it.
unfoldable pub timeline_oldest_req : Requests → Option (Request × Requests)
timeline_oldest_req nil = none
timeline_oldest_req (cons r q) = some (r, q)
