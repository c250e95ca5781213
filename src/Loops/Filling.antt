-- ===== src/Loops/Filling.antt =====
-- Requests that agios_add_request takes under a scheduler with the hashtable: the queues stay sorted,
-- and the counter of requests counts exactly what they hold.
use forwarding_explorer_agio.Prelude.{
  ℕ, ◌+◌, ◌≤◌, ◌≡◌, refl, Bool, sym, ap, ◌∙◌, true, false, none, some, List, [], ◌∷◌, length, arith,
  ◌==◌, if◌then◌else◌, length-set, Option-cases, inl, inr,
}
use forwarding_explorer_agio.Prelude.Int.{pos, ◌+ℤ◌}
use forwarding_explorer_agio.Aggregation.{filled, request_constructor}
use forwarding_explorer_agio.Aggregation.Shape.{IsSingle}
use forwarding_explorer_agio.Data.{Fields, Request, fields, Queue, File}
use forwarding_explorer_agio.Entry.{
  hashtable_add_req, count_in, add_to_file, timeline_add_req, Arrival, Environment, count_arrival,
  finish_counted, finish_placed, finish_add, Outcome, added, outcome, add_constructed, add_result,
  agios_add_request,
}
use forwarding_explorer_agio.Files.{find_file, set_file}
use forwarding_explorer_agio.Files.Lookup.{IsLine}
use forwarding_explorer_agio.Hash.{get_hashtable_position, agios_hash_entries}
use forwarding_explorer_agio.Loops.Opening.{put_file-lines, open_file-Opened}
use forwarding_explorer_agio.Loops.Session.{next_reqnb, with_calls, then_add, add_all, Grants}
use forwarding_explorer_agio.Migration.Lines.{
  LinesSorted, handle-find_file, in_lines-set_file, set-LinesSorted, find_file-LineSorted,
  get_or-LineSorted,
}
use forwarding_explorer_agio.Migration.ToHashtable.{add_to_file-HoldsMore}
use forwarding_explorer_agio.Migration.ToTimeline.{in_lines}
use forwarding_explorer_agio.Process.{inc_current_reqnb, queue_of}
use forwarding_explorer_agio.Requests.{weight}
use forwarding_explorer_agio.Schedulers.{noop_scheduler}
use forwarding_explorer_agio.State.{Agios, line, file_of, put_file}
use forwarding_explorer_agio.Statistics.{GlobalState, statistics_newreq, update_local_stats}
use forwarding_explorer_agio.Waiting.Lists.{SameLists, in_file-SameLists, lists-on_queue}
use mathlib.Core.Path.{subst}

-- How many requests the hashtable holds, those in aggregations counted.
abbrev pub queued : Agios → ℕ
queued a = in_lines (λ f. 1) a.hashlist

-- The state of the library between two calls, under a scheduler with the hashtable.
pub record IsFilled (a : Agios) : Type 0 where
  pub alg : (a.current_alg == noop_scheduler) ≡ false
  pub hashtable : a.current_scheduler.needs_hashtable ≡ true
  pub limit : 1 ≤ a.current_scheduler.max_aggreg_size
  pub width : length a.hashlist ≡ agios_hash_entries
  pub lines : (h : ℕ) → IsLine (line h a)
  pub sorted : LinesSorted a.current_scheduler.max_aggreg_size a.hashlist
  pub counted : a.counters.current_reqnb ≡ pos (queued a)

list-statistics_newreq :
    (req : Request) (q : Queue) (s : GlobalState) → q.list ≡ (statistics_newreq req q s).0.list
unfolding statistics_newreq update_local_stats
list-statistics_newreq req q s = refl

count_in-SameLists : (req : Request) (f : File) (s : GlobalState) → SameLists (count_in req f s).0 f
count_in-SameLists req f s =
    let q = queue_of (fields req).type f in
    let t =
      statistics_newreq req (record q { current_size = q.current_size +ℤ pos (fields req).len })
        s in
    let same = lists-on_queue (fields req).type t.0 f (list-statistics_newreq req _ s) in
    record { reads = same.reads; writes = same.writes }

handle-count_in :
    (req : Request) (f : File) (s : GlobalState) → (count_in req f s).0.file_id ≡ f.file_id
handle-count_in req f s = ground arith

-- The count of a request that has its place, with its file.
count_arrival-IsFilled :
    (t : Bool) (req : Request) (hash : ℕ) (f : File) (a c : Agios)
    → IsFilled a
    → c.current_scheduler ≡ a.current_scheduler
    → c.current_alg ≡ a.current_alg
    → c.counters.current_reqnb ≡ a.counters.current_reqnb
    → length c.hashlist ≡ length a.hashlist
    → ((h : ℕ) → IsLine (line h c))
    → LinesSorted a.current_scheduler.max_aggreg_size c.hashlist
    → ((w : Fields → ℕ) → in_lines w c.hashlist ≡ in_lines w a.hashlist + weight w req)
    → weight (λ f. 1) req ≡ 1
    → file_of (fields req).file_id c ≡ some f
    → IsFilled (count_arrival t req hash f c)
      × ((w : Fields → ℕ)
          → in_lines w (count_arrival t req hash f c).hashlist
            ≡ in_lines w a.hashlist + weight w req)
unfolding count_arrival put_file file_of inc_current_reqnb
count_arrival-IsFilled t req hash f a c filled scheduler alg reqnb width lines sorted carries one
      found =
    let id = (fields req).file_id in
    let limit = a.current_scheduler.max_aggreg_size in
    let g = (count_in req f c.statistics).0 in
    let own = handle-count_in req f c.statistics ∙ handle-find_file id _ f found in
    let j = get_hashtable_position g.file_id in
    let there =
      subst (λ k. find_file k (line (get_hashtable_position k) c) ≡ some f) (sym own) found in
    let same = count_in-SameLists req f c.statistics in
    let after : (w : Fields → ℕ)
        → in_lines w (count_arrival t req hash f c).hashlist
          ≡ in_lines w a.hashlist + weight w req =
      λ w. omega (
        arith,
        in_lines-set_file w g f c.hashlist j there,
        in_file-SameLists w g f same,
        carries w,
      ) in
    let fs =
      find_file-LineSorted limit id f _ found
        (get_or-LineSorted limit c.hashlist (get_hashtable_position id) sorted) in
    (
      record {
        alg = ap (λ x. x == noop_scheduler) alg ∙ filled.alg;
        hashtable = ap (λ s. s.needs_hashtable) scheduler ∙ filled.hashtable;
        limit = subst (λ s. 1 ≤ s.max_aggreg_size) (sym scheduler) filled.limit;
        width = length-set c.hashlist j (set_file g (line j c)) ∙ width ∙ filled.width;
        lines = put_file-lines g c lines;
        sorted =
            subst (λ s. LinesSorted s.max_aggreg_size (put_file g c).hashlist) (sym scheduler)
              (set-LinesSorted limit g c.hashlist j (rw (same.reads, same.writes) fs) sorted);
        counted =
            next_reqnb c.counters.current_reqnb (queued a) _ (reqnb ∙ filled.counted)
              (omega (arith, after (λ f. 1), one));
      },
      after,
    )

-- A call: it succeeds without a call of the callbacks, and the hashtable holds this much more.
abbrev Fills : ((Fields → ℕ) → ℕ) → Agios → Outcome → Type 0
Fills amount a o =
    (d : Agios) × (o ≡ added d [])
    × IsFilled d
    × ((w : Fields → ℕ) → in_lines w d.hashlist ≡ in_lines w a.hashlist + amount w)

finish_add-counted :
    (env : Environment) (req : Request) (hash : ℕ) (f : File) (c : Agios)
    → (c.current_alg == noop_scheduler) ≡ false
    → file_of (fields req).file_id c ≡ some f
    → finish_add env req hash c ≡ some (count_arrival env.config_trace_agios req hash f c, [])
unfolding finish_add count_arrival put_file
finish_add-counted env req hash f c other found =
    ap (finish_counted env req hash c) found ∙ rw other refl

add_constructed-Fills :
    (env : Environment) (m : File) (req : Request) (a : Agios)
    → env.file_memory ≡ some m
    → IsSingle req
    → weight (λ f. 1) req ≡ 1
    → IsFilled a
    → Fills
        (λ w. weight w req)
        a
        (add_constructed env req (get_hashtable_position (fields req).file_id) a)
unfolding add_constructed hashtable_add_req
add_constructed-Fills env m req a mem single one ready =
    let id = (fields req).file_id in
    let hash = get_hashtable_position id in
    let (f, b, run, o) = open_file-Opened m req a ready.width ready.lines in
    let same = sym o.scheduler in
    let limit = subst (λ s. 1 ≤ s.max_aggreg_size) same ready.limit in
    let sorted =
      subst (λ s. LinesSorted s.max_aggreg_size b.hashlist) same
        (o.sorted a.current_scheduler.max_aggreg_size ready.sorted) in
    let (c, runs, h) = add_to_file-HoldsMore req f b limit single o.found sorted in
    elim (Option-cases (file_of id c)) [
      | inl missing ↦ absurd (h.known id (λ n. cc (n, o.found)) missing)
      | inr (g, found) ↦
          let (d, carries) =
            count_arrival-IsFilled env.config_trace_agios req hash g a c ready
              (h.scheduler ∙ o.scheduler) (h.alg ∙ o.alg) (h.reqnb ∙ o.reqnb) (h.width ∙ o.width)
              (h.lines o.lines)
              (subst (λ s. LinesSorted s.max_aggreg_size c.hashlist) o.scheduler h.sorted)
              (λ w. omega (arith, h.carries w, o.carries w)) one found in
          let other = ap (λ x. x == noop_scheduler) (h.alg ∙ o.alg) ∙ ready.alg in
          (
            count_arrival env.config_trace_agios req hash g c,
            ap
                  (λ needs. finish_placed env req hash (
                    if needs
                    then hashtable_add_req env.file_memory req hash none a
                    else timeline_add_req env.stored env.config_sw_size env.file_memory req hash
                        none a))
                  ready.hashtable
                ∙ ap (λ o. finish_placed env req hash (hashtable_add_req o req hash none a)) mem
                ∙ ap
                    (λ o.
                      finish_placed env req hash
                        (elim o [ none ↦ none | some (x, y) ↦ add_to_file req x y ]))
                    run
                ∙ ap (finish_placed env req hash) runs
                ∙ ap outcome (finish_add-counted env req hash g c other found),
            d,
            carries,
          )
    ]

-- The request that a call makes.
abbrev pub request_of : Environment → Arrival → (timestamp : ℕ) → Request
request_of env r timestamp =
    filled r.file_id r.type r.offset r.len r.identifier env.now r.queue_id timestamp

weight-request_of :
    (env : Environment) (r : Arrival) (t : ℕ) → weight (λ f. 1) (request_of env r t) ≡ 1
unfolding weight
weight-request_of env r t = refl

agios_add_request-Fills :
    (env : Environment) (m : File) (r : Arrival) (a : Agios)
    → env.request_memory ≡ true
    → env.file_memory ≡ some m
    → IsFilled a
    → Fills
        (λ w. weight w (request_of env r (a.g_last_timestamp + 1)))
        a
        (agios_add_request env r a)
unfolding agios_add_request request_constructor
agios_add_request-Fills env m r a memory mem ready =
    let t = a.g_last_timestamp + 1 in
    let a' : Agios = record a { g_last_timestamp = t } in
    let ready' : IsFilled a' = record {
      alg = ready.alg;
      hashtable = ready.hashtable;
      limit = ready.limit;
      width = ready.width;
      lines = ready.lines;
      sorted = ready.sorted;
      counted = ready.counted;
    } in
    let (d, run, after, carries) =
      add_constructed-Fills env m (request_of env r t) a' mem refl (weight-request_of env r t)
        ready' in
    (
      d,
      ap
            (λ o.
              add_result env (get_hashtable_position r.file_id) a
                (if o then some (request_of env r t, t) else none))
            memory
          ∙ run,
      after,
      carries,
    )

-- The state invariant of the library under a scheduler with the hashtable other than NOOP: from a state
-- between two calls, every call of agios_add_request that is given memory succeeds, in any number and
-- for any files, and without a call of the callbacks; afterwards the queues are again sorted by offset,
-- well formed and within the aggregation limit, the lines are sorted by handle, and the counter of
-- requests is the number of requests in the hashtable, which has grown by the number of the calls.
pub add_all-IsFilled :
    (calls : List (Environment × Arrival)) (a : Agios)
    → Grants calls
    → IsFilled a
    → (d : Agios) × (add_all calls a ≡ added d [])
      × IsFilled d
      × (queued d ≡ queued a + length calls)
unfolding add_all
add_all-IsFilled [] a grants ready = (a, refl, ready, omega arith)
add_all-IsFilled (c ∷ calls) a (memory, (m, mem), grants) ready =
    let (b, run, after, carries) = agios_add_request-Fills c.0 m c.1 a memory mem ready in
    let (d, runs, last, more) = add_all-IsFilled calls b grants after in
    (
      d,
      ap (λ o. then_add o (add_all calls)) run ∙ ap (with_calls []) runs,
      last,
      omega (arith, more, carries (λ f. 1), weight-request_of c.0 c.1 (a.g_last_timestamp + 1)),
    )
