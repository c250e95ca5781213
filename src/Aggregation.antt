-- ===== src/Aggregation.antt =====
-- The aggregation of contiguous requests: the first half of agios_add_request.c.
-- `g` is the global `g_last_timestamp`, which every constructed request increments. A queue is cut
-- at `insertion_place`: `before` ends with the request there, and `after` follows it.
pub mod Conservation
pub mod Shape
pub mod Span
use forwarding_explorer_agio.Prelude.{
  ℕ, suc, ◌+◌, ◌-◌, ◌%◌, ◌^◌, Bool, true, false, ◌&&◌, Option, none, some, ◌==◌, leb, ltb,
  if◌then◌else◌,
}
use forwarding_explorer_agio.Data.{
  FileId, Fields, Request, request, Requests, nil, cons, fields, reqs_list,
}
use forwarding_explorer_agio.Requests.{snoc, append, is_empty, LastView, empty, ends, last_view}

-- The structure that `request_constructor` fills. `dispatch_timestamp` is written before it is read.
abbrev pub filled :
    FileId → (type offset len identifier arrival_time queue_id timestamp : ℕ) → Request
filled file_id type offset len identifier arrival_time queue_id timestamp =
    request
      (record {
        file_id = file_id;
        arrival_time = arrival_time;
        dispatch_timestamp = 0;
        type = type;
        offset = offset;
        len = len;
        queue_id = queue_id;
        user_id = identifier;
        sched_factor = 0;
        timestamp = timestamp;
        reqnb = 1;
      })
      nil

-- `memory` says whether `malloc` returns memory.
unfoldable pub request_constructor :
    Bool → FileId → (type offset len identifier arrival_time queue_id g : ℕ) → Option (Request × ℕ)
request_constructor memory file_id type offset len identifier arrival_time queue_id g =
    if memory
    then some (filled file_id type offset len identifier arrival_time queue_id (g + 1), g + 1)
    else none

-- CHECK_AGGREGATE: `next` starts within `req` or where it ends.
unfoldable pub check_aggregate : Request → Request → Bool
check_aggregate req next =
    leb (fields req).offset (fields next).offset
    && leb (fields next).offset ((fields req).offset + (fields req).len)

-- The new virtual request takes the place of `head`, which becomes its only sub-request.
unfoldable pub make_virtual_request : Request → ℕ → Request × ℕ
make_virtual_request head g =
    let f = fields head in
    (request (record f { user_id = 0; dispatch_timestamp = 0; reqnb = 1 }) (cons head nil), g + 1)

-- The part of `include_in_aggregation` that follows the preparation of the virtual request.
unfoldable pub take_in : Request → Request → Request
take_in req agg =
    let r = fields req in
    let f = fields agg in
    let front = leb r.offset f.offset in
    request
      (record f {
        offset = if front then r.offset else f.offset;
        len =
            if front
            then f.len + (f.offset - r.offset)
            else f.len + (r.offset + r.len) - (f.offset + f.len);
        reqnb = f.reqnb + 1;
        arrival_time = if ltb r.arrival_time f.arrival_time then r.arrival_time else f.arrival_time;
        timestamp = if ltb r.timestamp f.timestamp then r.timestamp else f.timestamp;
        sched_factor = (f.sched_factor + r.sched_factor) % 2 ^ 32;
      })
      (if front then cons req (reqs_list agg) else snoc (reqs_list agg) req)

unfoldable pub include_in_aggregation : Request → Request → ℕ → Request × ℕ
include_in_aggregation req agg g =
    if (fields agg).reqnb == 1
    then (take_in req (make_virtual_request agg g).0, (make_virtual_request agg g).1)
    else (take_in req agg, g)

-- The loop of `join_aggregations` over the sub-requests of the tail.
unfoldable pub include_all : Requests → Request → ℕ → Request × ℕ
include_all nil head g = (head, g)
include_all (cons r rs) head g =
    include_all rs (include_in_aggregation r head g).0 (include_in_aggregation r head g).1

unfoldable pub join_aggregations : Request → Request → ℕ → Request × ℕ
join_aggregations head tail g =
    if (fields tail).reqnb == 1
    then include_in_aggregation tail head g
    else include_all (reqs_list tail) head g

-- What a call of `insert_aggregations` did.
pub data Insertion : Type 0 where
  -- it returned true, and this is the queue
  aggregated : Requests → ℕ → Insertion
  -- it returned false and changed nothing
  unchanged : Insertion
  -- it returned false, and `req` has taken in the next request, which has left the queue
  swallowed : Request → Requests → ℕ → Insertion

-- Whether two requests may become one under `max_aggreg_size`.
abbrev pub fits : ℕ → Request → Request → Bool
fits limit a b = leb ((fields a).reqnb + (fields b).reqnb) limit

-- The previous request has taken in the new one: it may now reach the next one.
unfoldable pub join_next : ℕ → Requests → Request → Requests → ℕ → Insertion
join_next limit before prev nil g = aggregated (append before (cons prev nil)) g
join_next limit before prev (cons next after) g =
    if check_aggregate prev next && fits limit next prev
    then aggregated (append before (cons (join_aggregations prev next g).0 after))
        (join_aggregations prev next g).1
    else aggregated (append before (cons prev (cons next after))) g

-- The new request did not join the previous one: the next one is tried.
unfoldable pub try_next : ℕ → Request → Requests → Requests → ℕ → Insertion
try_next limit req before nil g = unchanged
try_next limit req before (cons next after) g =
    if check_aggregate req next && fits limit next req
    then (if ltb 1 (fields req).reqnb
        then (swallowed (join_aggregations req next g).0 (append before after)
            (join_aggregations req next g).1)
        else (aggregated (append before (cons (include_in_aggregation req next g).0 after))
            (include_in_aggregation req next g).1))
    else unchanged

-- The previous request with the new one in it.
unfoldable pub join_prev : Request → Request → ℕ → Request × ℕ
join_prev req prev g =
    if ltb 1 (fields req).reqnb
    then join_aggregations prev req g
    else include_in_aggregation req prev g

unfoldable pub insert_at : ℕ → Request → LastView → Requests → Requests → ℕ → Insertion
insert_at limit req empty before after g = try_next limit req before after g
insert_at limit req (ends first prev) before after g =
    if check_aggregate prev req && fits limit prev req
    then join_next limit first (join_prev req prev g).0 after (join_prev req prev g).1
    else try_next limit req before after g

-- `limit` is `current_scheduler->max_aggreg_size`.
unfoldable pub insert_aggregations : ℕ → Request → Requests → Requests → ℕ → Insertion
unfolding insert_at
insert_aggregations limit req before after g = insert_at limit req (last_view before) before after g
