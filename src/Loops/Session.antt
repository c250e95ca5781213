-- ===== src/Loops/Session.antt =====
-- Requests that agios_add_request takes under TO are what the loop of TO gives back.
use forwarding_explorer_agio.Prelude.{
  ℕ, ◌+◌, ◌<◌, ◌≡◌, refl, Bool, sym, ap, ◌∙◌, true, false, none, some, List, [], ◌∷◌, ◌++◌, length,
  arith, if◌then◌else◌, length-set,
}
use forwarding_explorer_agio.Prelude.Int.{ℤ, pos, negsuc, ◌-ℤ◌, int_laws}
use mathlib.Core.List.{append_assoc, append-nil}
use mathlib.Core.Path.{subst}
use forwarding_explorer_agio.Aggregation.Shape.{IsShaped}
use forwarding_explorer_agio.Aggregation.{filled, request_constructor}
use forwarding_explorer_agio.Data.{FileId, Request, Requests, nil, cons, fields, File}
use forwarding_explorer_agio.Entry.{
  mode, timelines, set_timelines, hashtable_add_req, count_in, open_file, timeline_add_req,
  place_new, Arrival, Environment, count_arrival, finish_counted, finish_placed, finish_add,
  Outcome, added, refused, fault, outcome, add_constructed, add_result, agios_add_request,
}
use forwarding_explorer_agio.Files.{set_file}
use forwarding_explorer_agio.Files.Lookup.{IsLine}
use forwarding_explorer_agio.Hash.{get_hashtable_position, agios_hash_entries}
use forwarding_explorer_agio.Loops.Draining.{
  timeorder-Drained, put_file-IsKnown, IsKnown, AllKnown, AllKnown-mono, held, identifiers,
}
use forwarding_explorer_agio.Loops.{Rounds, timeorder, returned}
use forwarding_explorer_agio.Process.Delivery.{delivered}
use forwarding_explorer_agio.Process.{Callback, inc_current_reqnb, user_ids, parts}
use forwarding_explorer_agio.Requests.{snoc, count}
use forwarding_explorer_agio.Schedulers.{to_scheduler}
use forwarding_explorer_agio.State.{Agios, line, file_of, put_file}
use forwarding_explorer_agio.Timeline.{Mode, Timelines, timeline_place, place_ordered, place_rest}
use forwarding_explorer_agio.Loops.Opening.{put_file-lines, Opened, open_file-Opened}

-- The state of the library under TO between two calls.
pub record IsReady (a : Agios) : Type 0 where
  pub alg : a.current_alg ≡ to_scheduler
  pub hashtable : a.current_scheduler.needs_hashtable ≡ false
  pub width : length a.hashlist ≡ agios_hash_entries
  pub lines : (h : ℕ) → IsLine (line h a)
  pub known : AllKnown a a.timeline
  pub counted : a.counters.current_reqnb ≡ pos (held a.timeline)

timeline_place-snoc :
    (stored : Request → ℤ) (m : Mode) (req : Request) (t : Timelines)
    → m.current_alg ≡ to_scheduler
    → timeline_place stored false m req t ≡ record t { this_timeline = snoc t.this_timeline req }
unfolding timeline_place place_ordered place_rest
timeline_place-snoc stored m req t to = rw to refl

AllKnown-snoc :
    (a : Agios) (q : Requests) (r : Request)
    → AllKnown a q
    → IsShaped r
    → IsKnown a (fields r).file_id
    → AllKnown a (snoc q r)
AllKnown-snoc a nil r h s k = (s, k, tt)
AllKnown-snoc a (cons x q) r h s k = (h.0, h.1, AllKnown-snoc a q r h.2 s k)

held-snoc : (q : Requests) (r : Request) → held (snoc q r) ≡ held q + (fields r).reqnb
held-snoc nil r = omega arith
held-snoc (cons x q) r = omega (arith, held-snoc q r)

pub next_reqnb : (z : ℤ) (n k : ℕ) → z ≡ pos n → k ≡ n + 1 → z -ℤ negsuc 0 ≡ pos k
next_reqnb z n k e h = ap (λ y. y -ℤ negsuc 0) e ∙ one n k h
  where
    one : (n k : ℕ) → k ≡ n + 1 → pos n -ℤ negsuc 0 ≡ pos k
    one n k h = omega int_laws

-- The state in which the request has its place.
placed : Request → Agios → Agios
placed req b = record b { timeline = snoc b.timeline req }

count_arrival-IsReady :
    (t : Bool) (req : Request) (hash : ℕ) (f : File) (a b : Agios)
    → IsReady a
    → Opened req a f b
    → (fields req).reqnb ≡ 1
    → IsShaped req
    → IsReady (count_arrival t req hash f (placed req b))
      × ((count_arrival t req hash f (placed req b)).timeline ≡ snoc a.timeline req)
unfolding count_arrival placed put_file file_of inc_current_reqnb
count_arrival-IsReady t req hash f a b ready o one shape =
    let d = count_arrival t req hash f (placed req b) in
    let g = (count_in req f b.statistics).0 in
    let i = get_hashtable_position g.file_id in
    let keeps : (k : FileId) → IsKnown b k → IsKnown d k = λ k h. put_file-IsKnown g b k h in
    let known =
      AllKnown-snoc d a.timeline req
        (AllKnown-mono a d a.timeline (λ k h. keeps k (o.keeps k h)) ready.known) shape
        (keeps (fields req).file_id (λ n. cc (n, o.found))) in
    (
      record {
        alg = o.alg ∙ ready.alg;
        hashtable = ap (λ s. s.needs_hashtable) o.scheduler ∙ ready.hashtable;
        width = length-set b.hashlist i (set_file g (line i b)) ∙ o.width ∙ ready.width;
        lines = put_file-lines g b o.lines;
        known = subst (λ q. AllKnown d (snoc q req)) (sym o.timeline) known;
        counted =
            next_reqnb b.counters.current_reqnb (held a.timeline) (held (snoc b.timeline req))
              (o.reqnb ∙ ready.counted) (rw (o.timeline, held-snoc a.timeline req, one) refl);
      },
      ap (λ q. snoc q req) o.timeline,
    )

finish_add-added :
    (env : Environment) (req : Request) (hash : ℕ) (f : File) (c : Agios)
    → c.current_alg ≡ to_scheduler
    → file_of (fields req).file_id c ≡ some f
    → finish_add env req hash c ≡ some (count_arrival env.config_trace_agios req hash f c, [])
unfolding finish_add count_arrival put_file
finish_add-added env req hash f c to found = ap (finish_counted env req hash c) found ∙ rw to refl

count-snoc : (q : Requests) (r : Request) → count (snoc q r) ≡ count q + 1
count-snoc nil r = refl
count-snoc (cons x q) r = omega (arith, count-snoc q r)

identifiers-snoc :
    (q : Requests) (r : Request)
    → (fields r).reqnb ≡ 1
    → identifiers (snoc q r) ≡ identifiers q ++ (fields r).user_id ∷ []
unfolding parts
identifiers-snoc nil r h = rw h refl
identifiers-snoc (cons x q) r h =
    ap (λ ids. user_ids (parts x) ++ ids) (identifiers-snoc q r h)
    ∙ sym (append_assoc (user_ids (parts x)) (identifiers q) ((fields r).user_id ∷ []))

-- What adding a request does: the state is one between calls again, and the new request is the last.
record Queued (r : Arrival) (a d : Agios) : Type 0 where
  ready : IsReady d
  ids : identifiers d.timeline ≡ identifiers a.timeline ++ r.identifier ∷ []
  longer : count d.timeline ≡ count a.timeline + 1

add_constructed-Queued :
    (env : Environment) (m : File) (req : Request) (a : Agios)
    → env.file_memory ≡ some m
    → (fields req).reqnb ≡ 1
    → IsShaped req
    → IsReady a
    → (d : Agios) × (add_constructed env req (get_hashtable_position (fields req).file_id) a
        ≡ added d [])
      × IsReady d
      × (d.timeline ≡ snoc a.timeline req)
unfolding add_constructed timeline_add_req placed file_of
add_constructed-Queued env m req a mem one shape ready =
    let hash = get_hashtable_position (fields req).file_id in
    let (f, b, run, o) = open_file-Opened m req a ready.width ready.lines in
    let d = count_arrival-IsReady env.config_trace_agios req hash f a b ready o one shape in
    let to = o.alg ∙ ready.alg in
    (
      count_arrival env.config_trace_agios req hash f (placed req b),
      ap
            (λ needs. finish_placed env req hash (
              if needs
              then hashtable_add_req env.file_memory req hash none a
              else timeline_add_req env.stored env.config_sw_size env.file_memory req hash none a))
            ready.hashtable
          ∙ ap
              (λ o.
                finish_placed env req hash
                  (place_new env.stored env.config_sw_size req (open_file o req hash a)))
              mem
          ∙ ap (λ o. finish_placed env req hash (place_new env.stored env.config_sw_size req o)) run
          ∙ ap (λ t. outcome (finish_add env req hash (set_timelines t b)))
              (timeline_place-snoc env.stored (mode env.config_sw_size b) req (timelines b) to)
          ∙ ap outcome (finish_add-added env req hash f (placed req b) to o.found),
      d.0,
      d.1,
    )

-- `agios_add_request` succeeds where memory is given.
agios_add_request-Queued :
    (env : Environment) (m : File) (r : Arrival) (a : Agios)
    → env.request_memory ≡ true
    → env.file_memory ≡ some m
    → IsReady a
    → (d : Agios) × (agios_add_request env r a ≡ added d []) × Queued r a d
unfolding agios_add_request request_constructor
agios_add_request-Queued env m r a memory mem ready =
    let g = a.g_last_timestamp + 1 in
    let req = filled r.file_id r.type r.offset r.len r.identifier env.now r.queue_id g in
    let a' = record a { g_last_timestamp = g } in
    let ready' : IsReady a' = record {
      alg = ready.alg;
      hashtable = ready.hashtable;
      width = ready.width;
      lines = ready.lines;
      known = AllKnown-mono a a' a.timeline (λ k h. h) ready.known;
      counted = ready.counted;
    } in
    let (d, run, after, t) = add_constructed-Queued env m req a' mem refl refl ready' in
    (
      d,
      ap
            (λ o.
              add_result env (get_hashtable_position r.file_id) a
                (if o then some (req, g) else none))
            memory
          ∙ run,
      record {
        ready = after;
        ids = ap identifiers t ∙ identifiers-snoc a.timeline req refl;
        longer = ap count t ∙ count-snoc a.timeline req;
      },
    )

abbrev pub with_calls : List Callback → Outcome → Outcome
with_calls cs refused = refused
with_calls cs fault = fault
with_calls cs (added a ds) = added a (cs ++ ds)

-- The calls of the user, one after another, each with what it meets.
abbrev pub then_add : Outcome → (Agios → Outcome) → Outcome
then_add refused next = refused
then_add fault next = fault
then_add (added a cs) next = with_calls cs (next a)

unfoldable pub add_all : List (Environment × Arrival) → Agios → Outcome
add_all [] a = added a []
add_all (c ∷ calls) a = then_add (agios_add_request c.0 c.1 a) (add_all calls)

-- Each call is given memory.
abbrev pub Grants : List (Environment × Arrival) → Type 0
Grants [] = Unit {0}
Grants (c ∷ calls) =
    (c.0.request_memory ≡ true) × ((m : File) × (c.0.file_memory ≡ some m)) × Grants calls

abbrev pub asked : List (Environment × Arrival) → List ℕ
asked [] = []
asked (c ∷ calls) = c.1.identifier ∷ asked calls

add_all-IsReady :
    (calls : List (Environment × Arrival)) (a : Agios)
    → Grants calls
    → IsReady a
    → (d : Agios) × (add_all calls a ≡ added d [])
      × IsReady d
      × (identifiers d.timeline ≡ identifiers a.timeline ++ asked calls)
      × (count d.timeline ≡ count a.timeline + length calls)
unfolding add_all
add_all-IsReady [] a grants ready =
    (a, refl, ready, sym (append-nil (identifiers a.timeline)), omega arith)
add_all-IsReady (c ∷ calls) a (memory, (m, mem), grants) ready =
    let (b, run, q) = agios_add_request-Queued c.0 m c.1 a memory mem ready in
    let (d, runs, after, ids, longer) = add_all-IsReady calls b grants q.ready in
    (
      d,
      ap (λ o. then_add o (add_all calls)) run ∙ ap (with_calls []) runs,
      after,
      ids
          ∙ ap (λ xs. xs ++ asked calls) q.ids
          ∙ append_assoc (identifiers a.timeline) (c.1.identifier ∷ []) (asked calls),
      omega (arith, longer, q.longer),
    )

-- First come, first served under TO, from agios_add_request to the callbacks: from a state between
-- two calls, every call that is given memory succeeds, in any number and for any files; and the loop
-- of TO, when it then runs and is not told to stop, returns, having told the user all the requests
-- that waited before and then the new ones in the order of the calls, each once.
pub timeorder-agios_add_request :
    (calls : List (Environment × Arrival)) (a : Agios) (n i : ℕ) (e : Rounds)
    → Grants calls
    → IsReady a
    → ((j : ℕ) → e.stops j ≡ false)
    → count a.timeline + length calls < n
    → (d last : Agios) × (told : List Callback) × (add_all calls a ≡ added d [])
      × (timeorder n i e d ≡ returned last told)
      × (last.timeline ≡ nil)
      × (delivered told ≡ identifiers a.timeline ++ asked calls)
timeorder-agios_add_request calls a n i e grants ready go fuel =
    let (d, run, after, ids, longer) = add_all-IsReady calls a grants ready in
    let end = timeorder-Drained n i e d go after.known after.counted (omega (arith, longer)) in
    (d, end.state, end.calls, run, end.returns, end.timeline, end.told ∙ ids)
