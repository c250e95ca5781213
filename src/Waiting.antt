-- ===== src/Waiting.antt =====
-- waiting_common.c: the waiting times that aIOLi and MLF impose on files. Times are nanoseconds,
-- and the monotonic clock is at or past every time that it gave before.
pub mod Progress
pub mod Lists
use forwarding_explorer_agio.Prelude.{
  ℕ, zero, suc, ◌+◌, ◌-◌, ◌*◌, ◌%◌, ◌^◌, Bool, true, false, ◌&&◌, ◌||◌, not, List, [], ◌∷◌, ◌++◌,
  ◌==◌, ltb, leb, if◌then◌else◌,
}
use forwarding_explorer_agio.Data.{Request, request, fields, Queue, File}
use forwarding_explorer_agio.Process.{
  ProcessingInfo, Callback, process_requests_step2, generic_post_process, on_queue, queue_of,
}

-- The file, and `*shortest_waiting_time`.
unfoldable pub update_waiting_time_counters : (now : ℕ) → File → ℕ → File × ℕ
update_waiting_time_counters now req_file shortest =
    let elapsed = now - req_file.waiting_start in
    let left = req_file.waiting_time - elapsed in
    if ltb elapsed req_file.waiting_time
    then (record req_file { waiting_time = left }, if ltb left shortest then left else shortest)
    else (record req_file { waiting_time = 0 }, shortest)

-- The two tests of `check_selection`, on the queue of the request: what they make of the queue, and
-- whether the file has to wait from now on.
unfoldable pub detect : Request → Queue → Queue × Bool
detect req q =
    let r = fields req in
    if not (q.predictedoff == 0)
    then (record q { predictedoff = 0 }, ltb q.predictedoff r.offset)
    else if ltb q.lastfinaloff r.offset && ltb r.reqnb q.lastaggregation
    then (record q { lastaggregation = 0 }, true)
    else (q, false)

-- Whether to go on with the request, and its file.
unfoldable pub check_selection : (config_waiting_time now : ℕ) → Request → File → Bool × File
unfolding detect
check_selection config_waiting_time now req req_file =
    let found = detect req (queue_of (fields req).type req_file) in
    let time = if found.1 then config_waiting_time else req_file.waiting_time in
    let f = record (on_queue (fields req).type (λ q. found.0) req_file) { waiting_time = time } in
    if time == 0 then (true, f) else (false, record f { waiting_start = now })

-- On the bit pattern of the `int32_t`.
unfoldable pub increment_sched_factor : Request → Request
increment_sched_factor (request f a) =
    request
      (record f { sched_factor = if f.sched_factor == 0 then 1 else f.sched_factor * 2 % 2 ^ 32 }) a

-- The queue is `req->globalinfo`.
unfoldable pub waiting_algorithms_postprocess : Request → Queue → Queue
unfolding generic_post_process
waiting_algorithms_postprocess req q =
    let r = fields req in
    let final = r.offset + r.len in
    let shifted = ltb r.offset q.laststartoff && q.predictedoff == 0 in
    generic_post_process req (record q {
      lastfinaloff = final;
      predictedoff = if shifted then final else q.predictedoff;
      laststartoff = r.offset;
    })

-- The calls of the user's callbacks, and what is returned. `stops` has what each call of step 2
-- returns, in order. `||` does not make a call once `ret` is true.
unfoldable pub step2_for_all :
    (has_list_cb : Bool)
    → (ret : Bool) → List ProcessingInfo
    → (stops : List Bool) → List Callback × Bool
step2_for_all has_list_cb ret [] stops = ([], ret)
step2_for_all has_list_cb ret (i ∷ is) [] =
    let rest = step2_for_all has_list_cb ret is [] in
    if ret then rest else (process_requests_step2 has_list_cb i ++ rest.0, rest.1)
step2_for_all has_list_cb ret (i ∷ is) (b ∷ stops) =
    let skipped = step2_for_all has_list_cb ret is (b ∷ stops) in
    let called = step2_for_all has_list_cb b is stops in
    if ret then skipped else (process_requests_step2 has_list_cb i ++ called.0, called.1)

unfoldable pub call_step2_for_info_list :
    (has_list_cb : Bool) → List ProcessingInfo → (stops : List Bool) → List Callback × Bool
unfolding step2_for_all
call_step2_for_info_list has_list_cb infos stops = step2_for_all has_list_cb false infos stops
