-- ===== src/Timeline/Arrival.antt =====
-- Arrival order in the timeline of req_timeline.c: kept under TO, restored by `reorder_timeline`,
-- and what becomes of it under SW.
use forwarding_explorer_agio.Prelude.{
  some, ℕ, ◌+◌, ◌≤◌, ◌≡◌, refl, ap, sym, true, false, ltb, Bool-cases, inl, inr, arith,
}
use forwarding_explorer_agio.Prelude.Int.{ℤ, ltb_ℤ}
use mathlib.Core.Path.{subst}
use forwarding_explorer_agio.Data.{Fields, Request, request, Requests, nil, cons, fields}
use forwarding_explorer_agio.Requests.{is_empty, snoc, total, weight, total-cons, total-nil}
use forwarding_explorer_agio.Schedulers.{to_scheduler}
use forwarding_explorer_agio.Timeline.{
  Mode, Timelines, timeline_place, place_ordered, place_rest, timestamp_insert, sw_insert, move_all,
  reorder_timeline,
}

-- Requests in the order of their timestamps, from `t` on.
abbrev pub Ordered : ℕ → Requests → Type 0
Ordered t nil = Unit {0}
Ordered t (cons r q) = (t ≤ (fields r).timestamp) × Ordered (fields r).timestamp q

pub timestamp_insert-Ordered :
    (t : ℕ) (r : Request) (q : Requests)
    → t ≤ (fields r).timestamp
    → Ordered t q
    → Ordered t (timestamp_insert r q)
unfolding timestamp_insert
timestamp_insert-Ordered t r nil h o = (h, tt)
timestamp_insert-Ordered t r (cons x q) h o =
    elim (Bool-cases (ltb (fields r).timestamp (fields x).timestamp)) [
      | inl here ↦ rw here (h, (ground arith, o.1))
      | inr on ↦ rw on (o.0, timestamp_insert-Ordered (fields x).timestamp r q (ground arith) o.1)
    ]

pub total-timestamp_insert :
    (w : Fields → ℕ) (r : Request) (q : Requests)
    → total w (timestamp_insert r q) ≡ total w q + weight w r
unfolding timestamp_insert
total-timestamp_insert w r nil = omega (arith, total-cons w r nil)
total-timestamp_insert w r (cons x q) =
    elim (Bool-cases (ltb (fields r).timestamp (fields x).timestamp)) [
      | inl here ↦ rw here (omega (arith, total-cons w r (cons x q)))
      | inr on ↦ rw on (
          omega (
            arith,
            total-timestamp_insert w r q,
            total-cons w x q,
            total-cons w x (timestamp_insert r q),
          ))
    ]

weight_pos : (r : Request) → 1 ≤ weight (λ _. 1) r
unfolding weight
weight_pos (request f nil) = omega arith
weight_pos (request f (cons r a)) = let ih = weight_pos r in omega arith

is_empty-total : (q : Requests) → 1 ≤ total (λ _. 1) q → is_empty q ≡ false
unfolding total
is_empty-total nil h = absurd (omega arith)
is_empty-total (cons r q) h = refl

total_pos : (q : Requests) → is_empty q ≡ false → 1 ≤ total (λ _. 1) q
unfolding total
total_pos nil h = absurd (cc)
total_pos (cons r q) h = omega (arith, weight_pos r)

-- The algorithms for which a known request goes where its timestamp says.
abbrev pub ByTimestamp : Mode → Type 0
ByTimestamp m = m.current_alg ≡ to_scheduler

module _ (stored : Request → ℤ) (m : Mode) (to : ByTimestamp m) where
  pub place-timestamp :
      (r : Request) (t : Timelines)
      → timeline_place stored true m r t
        ≡ record t { this_timeline = timestamp_insert r t.this_timeline }
  unfolding timeline_place place_ordered place_rest
  place-timestamp r t = rw to

  move_all-Ordered :
      (q : Requests) (t : Timelines)
      → Ordered 0 t.this_timeline
      → Ordered 0 (move_all stored m q t).this_timeline
        × ((w : Fields → ℕ)
            → total w (move_all stored m q t).this_timeline ≡ total w t.this_timeline + total w q)
  unfolding move_all total
  move_all-Ordered nil t o = (o, λ w. omega arith)
  move_all-Ordered (cons r q) t o =
      let t' = record t { this_timeline = timestamp_insert r t.this_timeline } in
      let rest =
        move_all-Ordered q t' (timestamp_insert-Ordered 0 r t.this_timeline (omega arith) o) in
      subst
        (λ z.
          Ordered 0 (move_all stored m q z).this_timeline
          × ((w : Fields → ℕ)
              → total w (move_all stored m q z).this_timeline
                ≡ total w t.this_timeline + total w (cons r q)))
        (sym (place-timestamp r t))
        (
          rest.0,
          λ w.
              omega (arith, rest.1 w, total-timestamp_insert w r t.this_timeline, total-cons w r q),
        )

  -- Rebuilding a timeline with requests for TO leaves it in the order of arrival, whatever its order
  -- was before, with the same requests.
  pub reorder_timeline-Ordered :
      (t : Timelines)
      → is_empty t.this_timeline ≡ false
      → (t' : Timelines) × (reorder_timeline stored m t ≡ some t')
        × Ordered 0 t'.this_timeline
        × ((w : Fields → ℕ) → total w t'.this_timeline ≡ total w t.this_timeline)
  unfolding reorder_timeline
  reorder_timeline-Ordered t some_requests =
      let t' = move_all stored m t.this_timeline (record t { this_timeline = nil }) in
      let h = move_all-Ordered t.this_timeline (record t { this_timeline = nil }) tt in
      let same : (w : Fields → ℕ) → total w t'.this_timeline ≡ total w t.this_timeline =
        λ w. omega (arith, h.1 w, total-nil w) in
      let some_left =
        is_empty-total t'.this_timeline
          (omega (arith, same (λ _. 1), total_pos t.this_timeline some_requests)) in
      (t', rw some_left refl, h.0, same)

-- Under SW a new request goes behind the queue wherever no field `sw_priority` happens to hold more
-- than the priority of the request: the priorities of the requests in the queue play no part.
pub sw_insert-snoc :
    (stored : Request → ℤ) (p : ℤ) (req : Request) (q : Requests)
    → ((r : Request) → ltb_ℤ p (stored r) ≡ false)
    → sw_insert stored p req q ≡ snoc q req
unfolding sw_insert
sw_insert-snoc stored p req nil h = refl
sw_insert-snoc stored p req (cons x q) h = rw (h x) (ap (cons x) (sw_insert-snoc stored p req q h))
