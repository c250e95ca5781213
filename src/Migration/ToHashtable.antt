-- ===== src/Migration/ToHashtable.antt =====
-- From a timeline of single requests to the hashtable: the move succeeds and nothing is lost.
use forwarding_explorer_agio.Prelude.{
  ℕ, ◌+◌, ◌≤◌, ◌≡◌, refl, ap, sym, ◌∙◌, false, some, arith, Option-cases, inl, inr, length,
  length-set,
}
use mathlib.Core.Path.{subst}
use forwarding_explorer_agio.Aggregation.Shape.{IsSingle}
use forwarding_explorer_agio.Data.{
  FileId, Fields, Request, request, Requests, nil, cons, fields, File,
}
use forwarding_explorer_agio.Entry.{add_to_file, hashtable_add_req}
use forwarding_explorer_agio.Files.{find_file, set_file}
use forwarding_explorer_agio.Files.Lookup.{IsLine}
use forwarding_explorer_agio.Loops.Opening.{put_file-lines}
use forwarding_explorer_agio.Hash.{get_hashtable_position}
use forwarding_explorer_agio.Loops.Draining.{IsKnown, AllKnown, AllKnown-mono, put_file-IsKnown}
use forwarding_explorer_agio.Migration.{
  is_split, and_then, add_known, put_req_in_hashtable, put_all_requests_in_hashtable,
  migrate_from_timeline_to_hashtable,
}
use forwarding_explorer_agio.Migration.ToTimeline.{AllSingle, in_lines}
use forwarding_explorer_agio.Placement.{add_to_queue}
use forwarding_explorer_agio.Placement.Merging.{add_to_queue-Holds}
use forwarding_explorer_agio.Process.{queue_of, on_queue}
use forwarding_explorer_agio.Requests.{total, weight}
use forwarding_explorer_agio.State.{Agios, line, file_of, put_file}
use forwarding_explorer_agio.Migration.Lines.{
  LinesSorted, handle-find_file, in_lines-set_file, set-LinesSorted, find_file-LineSorted,
  get_or-LineSorted, queue_of-FileSorted, on_queue-FileSorted, in_file-on_queue, handle-on_queue,
}

-- The state `b` has the hashtable of `a` with more in it, in the same order, and the same files.
pub record HoldsMore (limit : ℕ) (amount : (Fields → ℕ) → ℕ) (a b : Agios) : Type 0 where
  pub sorted : LinesSorted limit b.hashlist
  pub carries : (w : Fields → ℕ) → in_lines w b.hashlist ≡ in_lines w a.hashlist + amount w
  pub alg : b.current_alg ≡ a.current_alg
  pub reqnb : b.counters.current_reqnb ≡ a.counters.current_reqnb
  pub width : length b.hashlist ≡ length a.hashlist
  pub lines : ((h : ℕ) → IsLine (line h a)) → (h : ℕ) → IsLine (line h b)
  pub scheduler : b.current_scheduler ≡ a.current_scheduler
  pub timeline : b.timeline ≡ a.timeline
  pub known : (k : FileId) → IsKnown a k → IsKnown b k

add_to_file-some :
    (req : Request) (f : File) (a : Agios) (q : Requests) (g : ℕ)
    → add_to_queue a.current_scheduler.max_aggreg_size req
        (queue_of (fields req).type f).list
        a.g_last_timestamp
      ≡ some (q, g)
    → add_to_file req f a
      ≡ some (record (put_file (on_queue (fields req).type (λ x. record x { list = q }) f) a) {
        g_last_timestamp = g;
      })
unfolding add_to_file
add_to_file-some req f a q g e = rw (e, add_to_file) refl

pub add_to_file-HoldsMore :
    (req : Request) (f : File) (a : Agios)
    → 1 ≤ a.current_scheduler.max_aggreg_size
    → IsSingle req
    → file_of (fields req).file_id a ≡ some f
    → LinesSorted a.current_scheduler.max_aggreg_size a.hashlist
    → (b : Agios) × (add_to_file req f a ≡ some b)
      × HoldsMore a.current_scheduler.max_aggreg_size (λ w. weight w req) a b
unfolding put_file file_of
add_to_file-HoldsMore req f a pos single found sorted =
    let limit = a.current_scheduler.max_aggreg_size in
    let id = (fields req).file_id in
    let i = get_hashtable_position id in
    let type = (fields req).type in
    let own = handle-find_file id (line i a) f found in
    let fs =
      find_file-LineSorted limit id f (line i a) found
        (get_or-LineSorted limit a.hashlist i sorted) in
    let (q, g, run, holds) =
      add_to_queue-Holds limit a.g_last_timestamp req (queue_of type f).list pos single
        (queue_of-FileSorted limit type f fs) in
    let f' = on_queue type (λ x. record x { list = q }) f in
    let own' = handle-on_queue type q f ∙ own in
    let j = get_hashtable_position f'.file_id in
    let there =
      subst (λ k. find_file k (line (get_hashtable_position k) a) ≡ some f) (sym own') found in
    (
      record (put_file f' a) { g_last_timestamp = g },
      add_to_file-some req f a q g run,
      record {
        sorted =
            set-LinesSorted limit f' a.hashlist j
              (on_queue-FileSorted limit type q f holds.queue fs) sorted;
        carries = λ w. omega (
          arith,
          in_lines-set_file w f' f a.hashlist j there,
          in_file-on_queue w type q f (weight w req) (holds.totals w),
        );
        alg = refl;
        reqnb = refl;
        width = length-set a.hashlist j (set_file f' (line j a));
        lines = λ old h. put_file-lines f' a old h;
        scheduler = refl;
        timeline = refl;
        known = λ k h. put_file-IsKnown f' a k h;
      },
    )

put_req_in_hashtable-add_to_file :
    (req : Request) (f : File) (a : Agios)
    → IsSingle req
    → file_of (fields req).file_id a ≡ some f
    → put_req_in_hashtable req a ≡ add_to_file req f a
unfolding put_req_in_hashtable hashtable_add_req
put_req_in_hashtable-add_to_file (request f (cons x q)) g a single found = absurd single
put_req_in_hashtable-add_to_file (request f nil) g a single found =
    let whole : is_split a.current_scheduler.max_aggreg_size (request f nil) ≡ false =
      ground arith in
    rw whole (ap (add_known (request f nil) a) found)

put_all_requests_in_hashtable-HoldsMore :
    (q : Requests) (a : Agios)
    → 1 ≤ a.current_scheduler.max_aggreg_size
    → AllSingle q
    → AllKnown a q
    → LinesSorted a.current_scheduler.max_aggreg_size a.hashlist
    → (b : Agios) × (put_all_requests_in_hashtable q a ≡ some b)
      × HoldsMore a.current_scheduler.max_aggreg_size (λ w. total w q) a b
unfolding put_all_requests_in_hashtable total
put_all_requests_in_hashtable-HoldsMore nil a pos single known sorted = (
  a,
  refl,
  record {
    sorted = sorted;
    carries = λ w. omega arith;
    alg = refl;
    reqnb = refl;
    width = refl;
    lines = λ old. old;
    scheduler = refl;
    timeline = refl;
    known = λ k h. h;
  },
)
put_all_requests_in_hashtable-HoldsMore (cons r q) a pos single known sorted =
    elim (Option-cases (file_of (fields r).file_id a)) [
      | inl missing ↦ absurd (known.1 missing)
      | inr (f, found) ↦
          let (b, run, one) = add_to_file-HoldsMore r f a pos single.0 found sorted in
          let limit = ap (λ s. s.max_aggreg_size) one.scheduler in
          let (c, runs, rest) =
            put_all_requests_in_hashtable-HoldsMore q b (subst (λ n. 1 ≤ n) (sym limit) pos)
              single.1 (AllKnown-mono a b q one.known known.2)
              (subst (λ n. LinesSorted n b.hashlist) (sym limit) one.sorted) in
          (
            c,
            ap (λ o. and_then o (put_all_requests_in_hashtable q))
                  (put_req_in_hashtable-add_to_file r f a single.0 found ∙ run)
                ∙ runs,
            record {
              sorted = subst (λ n. LinesSorted n c.hashlist) limit rest.sorted;
              carries = λ w. omega (arith, one.carries w, rest.carries w);
              alg = rest.alg ∙ one.alg;
              reqnb = rest.reqnb ∙ one.reqnb;
              width = rest.width ∙ one.width;
              lines = λ old. rest.lines (one.lines old);
              scheduler = rest.scheduler ∙ one.scheduler;
              timeline = rest.timeline ∙ one.timeline;
              known = λ k h. rest.known k (one.known k h);
            },
          )
    ]

-- What a migration to the hashtable leaves.
pub record Migrated (a b : Agios) : Type 0 where
  pub sorted : LinesSorted b.current_scheduler.max_aggreg_size b.hashlist
  pub carries :
      (w : Fields → ℕ) → in_lines w b.hashlist ≡ in_lines w a.hashlist + total w a.timeline
  pub emptied : b.timeline ≡ nil

-- To a scheduler with the hashtable from one whose timeline holds single requests with known files:
-- where the queues of the hashtable are sorted and within the limit, the migration succeeds, leaves
-- them so, puts all of the timeline into them and empties the timeline.
pub migrate_from_timeline_to_hashtable-Migrated :
    (a : Agios)
    → 1 ≤ a.current_scheduler.max_aggreg_size
    → AllSingle a.timeline
    → AllKnown a a.timeline
    → LinesSorted a.current_scheduler.max_aggreg_size a.hashlist
    → (b : Agios) × (migrate_from_timeline_to_hashtable a ≡ some b) × Migrated a b
unfolding migrate_from_timeline_to_hashtable file_of
migrate_from_timeline_to_hashtable-Migrated a pos single known sorted =
    let a' = record a { timeline = nil } in
    let (b, run, h) =
      put_all_requests_in_hashtable-HoldsMore a.timeline a' pos single
        (AllKnown-mono a a' a.timeline (λ k n. n) known) sorted in
    (
      b,
      run,
      record {
        sorted = subst (λ s. LinesSorted s.max_aggreg_size b.hashlist) (sym h.scheduler) h.sorted;
        carries = h.carries;
        emptied = h.timeline;
      },
    )
