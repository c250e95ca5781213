-- ===== src/Migration/ToTimeline.antt =====
-- From the hashtable to the timeline of TO: nothing is lost, and the order is that of arrival.
use forwarding_explorer_agio.Prelude.{
  ℕ, ◌+◌, ◌≤◌, ◌≡◌, refl, ap, sym, true, false, List, [], ◌∷◌, ltb, arith, Bool-cases, inl, inr,
}
use forwarding_explorer_agio.Prelude.Int.{ℤ}
use mathlib.Core.Path.{subst}
use forwarding_explorer_agio.Aggregation.Shape.{IsSingle, Members, IsShaped}
use forwarding_explorer_agio.Cancel.Queues.{AllShaped}
use forwarding_explorer_agio.Data.{Fields, Request, request, Requests, nil, cons, fields, File}
use forwarding_explorer_agio.Entry.{mode, timelines}
use forwarding_explorer_agio.Migration.{
  is_split, put_this_request_in_timeline, put_all_requests_in_timeline, migrate_file, migrate_line,
  migrate_lines, migrate_from_hashtable_to_timeline,
}
use forwarding_explorer_agio.Requests.{total, weight, total-nil}
use forwarding_explorer_agio.Schedulers.{to_scheduler}
use forwarding_explorer_agio.State.{Agios}
use forwarding_explorer_agio.Timeline.{Mode, Timelines, timestamp_insert, timeline_place}
use forwarding_explorer_agio.Timeline.Arrival.{
  Ordered, timestamp_insert-Ordered, total-timestamp_insert, place-timestamp,
}

abbrev pub AllSingle : Requests → Type 0
AllSingle nil = Unit {0}
AllSingle (cons r q) = IsSingle r × AllSingle q

timestamp_insert-AllSingle :
    (r : Request) (q : Requests) → IsSingle r → AllSingle q → AllSingle (timestamp_insert r q)
unfolding timestamp_insert
timestamp_insert-AllSingle r nil s h = (s, tt)
timestamp_insert-AllSingle r (cons x q) s h =
    elim (Bool-cases (ltb (fields r).timestamp (fields x).timestamp)) [
      | inl here ↦ rw here (s, h)
      | inr on ↦ rw on (h.0, timestamp_insert-AllSingle r q s h.1)
    ]

-- The timeline of TO, with what it carries beyond the timeline `t`.
record Grows (t : Timelines) (amount : (Fields → ℕ) → ℕ) (t' : Timelines) : Type 0 where
  ordered : Ordered 0 t'.this_timeline
  single : AllSingle t'.this_timeline
  carries : (w : Fields → ℕ) → total w t'.this_timeline ≡ total w t.this_timeline + amount w

-- What stands in the timeline before a move.
record IsTo (t : Timelines) : Type 0 where
  ordered : Ordered 0 t.this_timeline
  single : AllSingle t.this_timeline

after : {t t' : Timelines} {amount : (Fields → ℕ) → ℕ} → Grows t amount t' → IsTo t'
after g = record { ordered = g.ordered; single = g.single }

module _ (stored : Request → ℤ) (m : Mode) (to : m.current_alg ≡ to_scheduler)
    (few : m.max_aggreg_size ≤ 1) where
  place-Grows :
      (r : Request) (t : Timelines)
      → IsSingle r
      → IsTo t
      → Grows t (λ w. weight w r) (timeline_place stored true m r t)
  place-Grows r t s h = rw (place-timestamp stored m to r t) (record {
    ordered = timestamp_insert-Ordered 0 r t.this_timeline (omega arith) h.ordered;
    single = timestamp_insert-AllSingle r t.this_timeline s h.single;
    carries = λ w. total-timestamp_insert w r t.this_timeline;
  })

  put_single-Grows :
      (r : Request) (t : Timelines)
      → IsSingle r
      → IsTo t
      → Grows t (λ w. weight w r) (put_this_request_in_timeline stored m r t)
  unfolding put_this_request_in_timeline
  put_single-Grows (request f nil) t s h =
      let whole : is_split m.max_aggreg_size (request f nil) ≡ false = ground arith in
      rw whole (place-Grows (request f nil) t s h)
  put_single-Grows (request f (cons x a)) t s h = absurd s

  put_list-Grows :
      (start : ℕ) (a : Requests) (t : Timelines)
      → Members start a
      → IsTo t
      → Grows t (λ w. total w a) (put_all_requests_in_timeline stored m a t)
  unfolding put_all_requests_in_timeline total
  put_list-Grows start nil t h to = record {
    ordered = to.ordered;
    single = to.single;
    carries = λ w. omega arith;
  }
  put_list-Grows start (cons r a) t h to =
      let one = put_single-Grows r t h.0 to in
      let rest =
        put_list-Grows start a (put_this_request_in_timeline stored m r t) h.2 (after one) in
      record {
        ordered = rest.ordered;
        single = rest.single;
        carries = λ w. omega (arith, one.carries w, rest.carries w);
      }

  -- A virtual request is taken apart.
  put_this-Grows :
      (r : Request) (t : Timelines)
      → IsShaped r
      → IsTo t
      → Grows t (λ w. weight w r) (put_this_request_in_timeline stored m r t)
  unfolding put_this_request_in_timeline weight total
  put_this-Grows (request f nil) t s h = put_single-Grows (request f nil) t s h
  put_this-Grows (request f (cons x a)) t s h =
      let split : is_split m.max_aggreg_size (request f (cons x a)) ≡ true = ground arith in
      rw split (put_list-Grows f.offset (cons x a) t s.2 h)

  put_all-Grows :
      (q : Requests) (t : Timelines)
      → AllShaped q
      → IsTo t
      → Grows t (λ w. total w q) (put_all_requests_in_timeline stored m q t)
  unfolding put_all_requests_in_timeline total
  put_all-Grows nil t h to = record {
    ordered = to.ordered;
    single = to.single;
    carries = λ w. omega arith;
  }
  put_all-Grows (cons r q) t h to =
      let one = put_this-Grows r t h.0 to in
      let rest = put_all-Grows q (put_this_request_in_timeline stored m r t) h.1 (after one) in
      record {
        ordered = rest.ordered;
        single = rest.single;
        carries = λ w. omega (arith, one.carries w, rest.carries w);
      }

-- What the queues of files hold, and whether their requests are well formed.
abbrev pub in_file : (Fields → ℕ) → File → ℕ
in_file w f = total w f.read_queue.list + total w f.write_queue.list

abbrev pub in_line : (Fields → ℕ) → List File → ℕ
in_line w [] = 0
in_line w (f ∷ fs) = in_file w f + in_line w fs

abbrev pub in_lines : (Fields → ℕ) → List (List File) → ℕ
in_lines w [] = 0
in_lines w (l ∷ ls) = in_line w l + in_lines w ls

abbrev pub LineShaped : List File → Type 0
LineShaped [] = Unit {0}
LineShaped (f ∷ fs) = AllShaped f.read_queue.list × AllShaped f.write_queue.list × LineShaped fs

abbrev pub LinesShaped : List (List File) → Type 0
LinesShaped [] = Unit {0}
LinesShaped (l ∷ ls) = LineShaped l × LinesShaped ls

module _ (stored : Request → ℤ) (m : Mode) (to : m.current_alg ≡ to_scheduler)
    (few : m.max_aggreg_size ≤ 1) where
  migrate_file-Grows :
      (f : File) (t : Timelines)
      → AllShaped f.read_queue.list
      → AllShaped f.write_queue.list
      → IsTo t
      → Grows t (λ w. in_file w f) (migrate_file stored m f t)
  unfolding migrate_file
  migrate_file-Grows f t r w h =
      let one = put_all-Grows stored m to few f.read_queue.list t r h in
      let two =
        put_all-Grows stored m to few f.write_queue.list
          (put_all_requests_in_timeline stored m f.read_queue.list t) w (after one) in
      record {
        ordered = two.ordered;
        single = two.single;
        carries = λ w. omega (arith, one.carries w, two.carries w);
      }

  migrate_line-Grows :
      (l : List File) (t : Timelines)
      → LineShaped l
      → IsTo t
      → Grows t (λ w. in_line w l) (migrate_line stored m l t).1
        × ((w : Fields → ℕ) → in_line w (migrate_line stored m l t).0 ≡ 0)
  unfolding migrate_line total
  migrate_line-Grows [] t h to =
      (record { ordered = to.ordered; single = to.single; carries = λ w. omega arith }, λ w. refl)
  migrate_line-Grows (f ∷ fs) t h to =
      let one = migrate_file-Grows f t h.0 h.1 to in
      let rest = migrate_line-Grows fs (migrate_file stored m f t) h.2 (after one) in
      (
        record {
          ordered = rest.0.ordered;
          single = rest.0.single;
          carries = λ w. omega (arith, one.carries w, rest.0.carries w);
        },
        λ w. omega (arith, rest.1 w),
      )

  migrate_lines-Grows :
      (ls : List (List File)) (t : Timelines)
      → LinesShaped ls
      → IsTo t
      → Grows t (λ w. in_lines w ls) (migrate_lines stored m ls t).1
        × ((w : Fields → ℕ) → in_lines w (migrate_lines stored m ls t).0 ≡ 0)
  unfolding migrate_lines
  migrate_lines-Grows [] t h to =
      (record { ordered = to.ordered; single = to.single; carries = λ w. omega arith }, λ w. refl)
  migrate_lines-Grows (l ∷ ls) t h to =
      let one = migrate_line-Grows l t h.0 to in
      let rest = migrate_lines-Grows ls (migrate_line stored m l t).1 h.1 (after one.0) in
      (
        record {
          ordered = rest.0.ordered;
          single = rest.0.single;
          carries = λ w. omega (arith, one.0.carries w, rest.0.carries w);
        },
        λ w. omega (arith, one.1 w, rest.1 w),
      )

-- What a migration to the timeline leaves.
pub record Migrated (a b : Agios) : Type 0 where
  pub ordered : Ordered 0 b.timeline
  pub single : AllSingle b.timeline
  pub carries : (w : Fields → ℕ) → total w b.timeline ≡ in_lines w a.hashlist
  pub emptied : (w : Fields → ℕ) → in_lines w b.hashlist ≡ 0

-- From a scheduler with the hashtable to TO: where all requests of the hashtable are well formed and
-- the timeline is empty, the timeline then holds every request that a user added, taken out of its
-- aggregation, in the order of arrival, and the hashtable holds none.
pub migrate_from_hashtable_to_timeline-Migrated :
    (stored : Request → ℤ) (size : ℕ) (a : Agios)
    → a.current_alg ≡ to_scheduler
    → a.current_scheduler.max_aggreg_size ≤ 1
    → a.timeline ≡ nil
    → LinesShaped a.hashlist
    → Migrated a (migrate_from_hashtable_to_timeline stored size a)
unfolding migrate_from_hashtable_to_timeline
migrate_from_hashtable_to_timeline-Migrated stored size a to few empty h =
    let start : IsTo (timelines a) = record {
      ordered = subst (Ordered 0) (sym empty) tt;
      single = subst AllSingle (sym empty) tt;
    } in
    let g = migrate_lines-Grows stored (mode size a) to few a.hashlist (timelines a) h start in
    record {
      ordered = g.0.ordered;
      single = g.0.single;
      carries = λ w. omega (arith, g.0.carries w, ap (total w) empty, total-nil w);
      emptied = g.1;
    }
