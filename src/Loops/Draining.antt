-- ===== src/Loops/Draining.antt =====
-- The loops of TO.c and NOOP.c empty the timeline.
use forwarding_explorer_agio.Prelude.{
  ℕ, zero, suc, ◌+◌, ◌<◌, ◌≡◌, ◌≢◌, refl, sym, ap, ◌∙◌, ◌⊎◌, inl, inr, Bool, true, false, not, none,
  some, List, [], ◌∷◌, ◌++◌, get_or, set, arith, Option-cases, take,
}
use forwarding_explorer_agio.Prelude.Int.{ℤ, pos, ltb_ℤ, ◌-ℤ◌, int_laws}
use mathlib.Core.List.{append_assoc}
use mathlib.Core.Path.{subst}
use forwarding_explorer_agio.Aggregation.Shape.{IsShaped, IsShaped-reqnb}
use forwarding_explorer_agio.Data.{FileId, Request, Requests, nil, cons, fields, File}
use forwarding_explorer_agio.Entry.{give_back, sent}
use forwarding_explorer_agio.Files.{find_file, set_file}
use forwarding_explorer_agio.Files.Lookup.{eq_of_strcmp}
use forwarding_explorer_agio.Hash.{get_hashtable_position}
use forwarding_explorer_agio.Loops.{
  Rounds, Loop, returned, after_calls, give_to, give_first, process_oldest, turn, timeorder, noop,
}
use forwarding_explorer_agio.Process.{
  Callback, process_request_cb, process_requests_cb, user_ids, parts, on_queue,
  generic_post_process, process_requests_step2,
}
use forwarding_explorer_agio.Process.Delivery.{delivered, process-delivers}
use forwarding_explorer_agio.Requests.{count, is_empty}
use forwarding_explorer_agio.State.{Agios, line, file_of, put_file}
use forwarding_explorer_agio.Timeline.{timeline_oldest_req}

-- The handle has a file.
abbrev pub IsKnown : Agios → FileId → Type 0
IsKnown a k = file_of k a ≢ none

-- Every request of the queue is well formed and belongs to a file.
abbrev pub AllKnown : Agios → Requests → Type 0
AllKnown a nil = Unit {0}
AllKnown a (cons r q) = IsShaped r × IsKnown a (fields r).file_id × AllKnown a q

-- How many requests a queue holds, those in aggregations counted.
abbrev pub held : Requests → ℕ
held nil = 0
held (cons r q) = (fields r).reqnb + held q

-- The identifiers of these requests, in order.
abbrev pub identifiers : Requests → List ℕ
identifiers nil = []
identifiers (cons r q) = user_ids (parts r) ++ identifiers q

pub find_file-set_file_known :
    (g : File) (k : FileId) (fs : List File)
    → find_file k fs ≢ none
    → find_file k (set_file g fs) ≢ none
unfolding find_file set_file
find_file-set_file_known g k [] h = h
find_file-set_file_known g k (f ∷ fs) h =
    ground (arith, find_file-set_file_known g k fs, eq_of_strcmp f.file_id g.file_id)

pub get_or-set_cases :
    (xs : List (List File)) (i : ℕ) (v : List File) (j : ℕ)
    → ((i ≡ j) × (get_or (set xs i v) j [] ≡ v)) ⊎ (get_or (set xs i v) j [] ≡ get_or xs j [])
get_or-set_cases [] i v j = inr refl
get_or-set_cases (x ∷ xs) zero v zero = inl (refl, refl)
get_or-set_cases (x ∷ xs) zero v (suc j) = inr refl
get_or-set_cases (x ∷ xs) (suc i) v zero = inr refl
get_or-set_cases (x ∷ xs) (suc i) v (suc j) = elim (get_or-set_cases xs i v j) [
  | inl (e, p) ↦ inl (ap suc e, p)
  | inr p ↦ inr p
]

pub put_file-IsKnown : (g : File) (a : Agios) (k : FileId) → IsKnown a k → IsKnown (put_file g a) k
unfolding file_of put_file
put_file-IsKnown g a k h =
    let i = get_hashtable_position g.file_id in
    let j = get_hashtable_position k in
    elim (get_or-set_cases a.hashlist i (set_file g (line i a)) j) [
      | inl (e, p) ↦ rw p (
          find_file-set_file_known g k (line i a)
            (subst (λ x. find_file k (get_or a.hashlist x []) ≢ none) (sym e) h))
      | inr p ↦ rw p h
    ]

-- What a round leaves: `a` is the state before, and the timeline after is `q`.
pub record Round (a : Agios) (r : Request) (q : Requests) (b : Agios) (cs : List Callback)
    : Type 0 where
  pub timeline : b.timeline ≡ q
  pub multi : b.multi_timeline ≡ a.multi_timeline
  pub reqnb : b.counters.current_reqnb ≡ a.counters.current_reqnb -ℤ pos (fields r).reqnb
  pub told : delivered cs ≡ user_ids (parts r)
  pub known : (k : FileId) → IsKnown a k → IsKnown b k

pub give_back-Round :
    (has_list_cb : Bool) (r : Request) (q : Requests) (hash now : ℕ) (f : File) (a : Agios)
    → IsShaped r
    → (b : Agios) × (cs : List Callback) × (give_back has_list_cb r hash now f
          (record a { timeline = q })
        ≡ some (b, cs))
      × Round a r q b cs
unfolding give_back file_of put_file
give_back-Round has_list_cb r q hash now f a shape =
    let (s, run, told, _, _, reqnb, _, _) =
      process-delivers has_list_cb r hash now f a.counters shape in
    let g = on_queue (fields r).type (generic_post_process r) s.file in
    (
      record (put_file g (record a { timeline = q })) { counters = s.counters },
      process_requests_step2 has_list_cb s.info,
      ap (sent has_list_cb r (record a { timeline = q })) run,
      record {
        timeline = refl;
        multi = refl;
        reqnb = reqnb;
        told = told;
        known = λ k h. put_file-IsKnown g a k h;
      },
    )

process_oldest-give_back :
    (has_list_cb : Bool) (r : Request) (q : Requests) (now : ℕ) (f : File) (a : Agios)
    → a.timeline ≡ cons r q
    → file_of (fields r).file_id a ≡ some f
    → process_oldest has_list_cb now a
      ≡ give_back has_list_cb r
          (get_hashtable_position (fields r).file_id)
          now
          f
          (record a { timeline = q })
unfolding process_oldest timeline_oldest_req
process_oldest-give_back has_list_cb r q now f a e found =
    ap (λ x. give_first has_list_cb now a (timeline_oldest_req x)) e
    ∙ ap (give_to has_list_cb now r (record a { timeline = q })) found

process_oldest-Round :
    (has_list_cb : Bool) (r : Request) (q : Requests) (now : ℕ) (a : Agios)
    → a.timeline ≡ cons r q
    → IsShaped r
    → IsKnown a (fields r).file_id
    → (b : Agios) × (cs : List Callback) × (process_oldest has_list_cb now a ≡ some (b, cs))
      × Round a r q b cs
process_oldest-Round has_list_cb r q now a e shape known =
    elim (Option-cases (file_of (fields r).file_id a)) [
      | inl missing ↦ absurd (known missing)
      | inr (f, found) ↦
          let (b, cs, run, round) =
            give_back-Round has_list_cb r q (get_hashtable_position (fields r).file_id) now f a
              shape in
          (b, cs, process_oldest-give_back has_list_cb r q now f a e found ∙ run, round)
    ]

pub minus_pos : (z : ℤ) (m k : ℕ) → z ≡ pos (m + k) -ℤ pos m → z ≡ pos k
minus_pos z m k e = e ∙ sub m k
  where
    sub : (m k : ℕ) → pos (m + k) -ℤ pos m ≡ pos k
    sub m k = omega int_laws

pub delivered-++ : (cs ds : List Callback) → delivered (cs ++ ds) ≡ delivered cs ++ delivered ds
delivered-++ [] ds = refl
delivered-++ (process_request_cb x ∷ cs) ds = ap (◌∷◌ x) (delivered-++ cs ds)
delivered-++ (process_requests_cb xs n ∷ cs) ds =
    ap (λ ys. take n xs ++ ys) (delivered-++ cs ds)
    ∙ sym (append_assoc (take n xs) (delivered cs) (delivered ds))

pub AllKnown-mono :
    (a b : Agios) (q : Requests)
    → ((k : FileId) → IsKnown a k → IsKnown b k)
    → AllKnown a q
    → AllKnown b q
AllKnown-mono a b nil h k = tt
AllKnown-mono a b (cons r q) h k = (k.0, h _ k.1, AllKnown-mono a b q h k.2)

-- The loop returned, with nothing left and everything told.
pub record Drained (q : Requests) (l : Loop) : Type 0 where
  pub state : Agios
  pub calls : List Callback
  pub returns : l ≡ returned state calls
  pub timeline : state.timeline ≡ nil
  pub reqnb : state.counters.current_reqnb ≡ pos 0
  pub told : delivered calls ≡ identifiers q

-- A loop that returns when the timeline is empty, and otherwise takes another round.
record Takes (loop : (n i : ℕ) → Rounds → Agios → Loop) : Type 0 where
  ends :
      (n i : ℕ) (e : Rounds) (a : Agios)
      → a.timeline ≡ nil
      → a.counters.current_reqnb ≡ pos 0
      → loop (suc n) i e a ≡ returned a []
  goes_on :
      (n i : ℕ) (e : Rounds) (a b : Agios) (cs : List Callback) (r : Request) (q : Requests)
      → a.timeline ≡ cons r q
      → ltb_ℤ (pos 0) a.counters.current_reqnb ≡ true
      → process_oldest e.has_list_cb (e.now i) a ≡ some (b, cs)
      → e.stops i ≡ false
      → loop (suc n) i e a ≡ after_calls cs (loop n (suc i) e b)

timeorder-Takes : Takes timeorder
unfolding timeorder
timeorder-Takes = record {
  ends = λ n i e a t c.
      ap
        (λ z.
          turn (ltb_ℤ (pos 0) z) (e.stops i) (process_oldest e.has_list_cb (e.now i) a) a
            (λ b. timeorder n (suc i) e b))
        c;
  goes_on = λ n i e a b cs r q t h run go. rw (h, run, go) refl;
}

noop-Takes : Takes noop
unfolding noop
noop-Takes = record {
  ends = λ n i e a t c.
      ap
        (λ q.
          turn (not (is_empty q)) (e.stops i) (process_oldest e.has_list_cb (e.now i) a) a
            (λ b. noop n (suc i) e b))
        t;
  goes_on = λ n i e a b cs r q t h run go.
      let more : not (is_empty a.timeline) ≡ true = ap (λ x. not (is_empty x)) t in
      rw (more, run, go) refl;
}

drain :
    (loop : (n i : ℕ) → Rounds → Agios → Loop)
    → Takes loop
    → (q : Requests) (n i : ℕ) (e : Rounds) (a : Agios) → ((j : ℕ) → e.stops j ≡ false)
    → a.timeline ≡ q
    → AllKnown a q
    → a.counters.current_reqnb ≡ pos (held q)
    → count q < n
    → Drained q (loop n i e a)
drain loop takes q zero i e a go t known c fuel = absurd (omega arith)
drain loop takes nil (suc n) i e a go t known c fuel = record {
  state = a;
  calls = [];
  returns = takes.ends n i e a t c;
  timeline = t;
  reqnb = c;
  told = refl;
}
drain loop takes (cons r q) (suc n) i e a go t known c fuel =
    let (b, cs, run, round) =
      process_oldest-Round e.has_list_cb r q (e.now i) a t known.0 known.1 in
    let some_left : ltb_ℤ (pos 0) (pos ((fields r).reqnb + held q)) ≡ true =
      ground (arith, IsShaped-reqnb r known.0) in
    let left = minus_pos _ _ _ (round.reqnb ∙ ap (λ z. z -ℤ pos (fields r).reqnb) c) in
    let rest =
      drain loop takes q n (suc i) e b go round.timeline (AllKnown-mono a b q round.known known.2)
        left (omega arith) in
    record {
      state = rest.state;
      calls = cs ++ rest.calls;
      returns =
          takes.goes_on n i e a b cs r q t (ap (ltb_ℤ (pos 0)) c ∙ some_left) run (go i)
          ∙ ap (after_calls cs) rest.returns;
      timeline = rest.timeline;
      reqnb = rest.reqnb;
      told = delivered-++ cs rest.calls ∙ rw (round.told, rest.told) refl;
    }

-- The loop of TO terminates when it is never told to stop: from a state whose requests are well
-- formed and belong to files, and whose counter counts them, it needs one round more than there are
-- requests in the timeline; it leaves the timeline empty and the counter at 0, and it has told the
-- user every request, those in aggregations included, once and in the order of the timeline.
pub timeorder-Drained :
    (n i : ℕ) (e : Rounds) (a : Agios)
    → ((j : ℕ) → e.stops j ≡ false)
    → AllKnown a a.timeline
    → a.counters.current_reqnb ≡ pos (held a.timeline)
    → count a.timeline < n
    → Drained a.timeline (timeorder n i e a)
timeorder-Drained n i e a go known c fuel =
    drain timeorder timeorder-Takes a.timeline n i e a go refl known c fuel

-- The same of the loop of NOOP, for the requests that are left when the algorithm changes to NOOP.
pub noop-Drained :
    (n i : ℕ) (e : Rounds) (a : Agios)
    → ((j : ℕ) → e.stops j ≡ false)
    → AllKnown a a.timeline
    → a.counters.current_reqnb ≡ pos (held a.timeline)
    → count a.timeline < n
    → Drained a.timeline (noop n i e a)
noop-Drained n i e a go known c fuel = drain noop noop-Takes a.timeline n i e a go refl known c fuel
