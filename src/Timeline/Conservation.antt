-- ===== src/Timeline/Conservation.antt =====
-- No request is lost or doubled when it is added to the timeline of req_timeline.c.
use forwarding_explorer_agio.Prelude.{
  ℕ, zero, suc, ◌+◌, ◌≤◌, ◌<◌, ◌≡◌, Bool, true, false, ◌&&◌, not, Option, none, some, List, [], ◌∷◌,
  ◌==◌, ltb, Bool-cases, inl, inr, ◌⊎◌, arith, length, get_or, set,
}
use forwarding_explorer_agio.Prelude.Int.{ℤ, ltb_ℤ}
use forwarding_explorer_agio.Data.{Fields, Request, Requests, nil, cons, fields}
use forwarding_explorer_agio.Requests.{snoc, total, weight, total-cons, total-snoc}
use forwarding_explorer_agio.Aggregation.{include_in_aggregation}
use forwarding_explorer_agio.Aggregation.Shape.{IsShaped, IsSingle, include-IsShaped, reqnb-include}
use forwarding_explorer_agio.Aggregation.Conservation.{weight-include}
use forwarding_explorer_agio.Schedulers.{
  sw_scheduler, twins_scheduler, toagg_scheduler, noop_scheduler,
}
use forwarding_explorer_agio.Timeline.{
  Mode, Timelines, timeline_place, place_ordered, place_rest, sw_insert, sw_priority, toagg_insert,
  cons_first, can_take,
}
use forwarding_explorer_agio.Timeline.Arrival.{total-timestamp_insert}

-- Requests that are well formed and within the limit.
abbrev pub Within : ℕ → Requests → Type 0
Within limit nil = Unit {0}
Within limit (cons r q) = ((fields r).reqnb ≤ limit) × IsShaped r × Within limit q

-- No request of the queue can take the new one in.
abbrev pub NoneTakes : ℕ → Request → Requests → Type 0
NoneTakes limit req nil = Unit {0}
NoneTakes limit req (cons r q) = (can_take limit req r ≡ false) × NoneTakes limit req q

-- The outcome of the search of TO-agg.
abbrev pub Took : ℕ → Request → Requests → Option (Requests × ℕ) → Type 0
Took limit req q none = NoneTakes limit req q
Took limit req q (some (q', g)) =
    Within limit q' × ((w : Fields → ℕ) → total w q' ≡ total w q + weight w req)

cons_first-Took :
    (limit : ℕ) (req tmp : Request) (q : Requests) (o : Option (Requests × ℕ))
    → can_take limit req tmp ≡ false
    → (fields tmp).reqnb ≤ limit
    → IsShaped tmp
    → Took limit req q o
    → Took limit req (cons tmp q) (cons_first tmp o)
cons_first-Took limit req tmp q none away n s h = (away, h)
cons_first-Took limit req tmp q (some (q', g)) away n s h =
    ((n, s, h.0), λ w. omega (arith, h.1 w, total-cons w tmp q, total-cons w tmp q'))

can_take-lt :
    (limit : ℕ) (req tmp : Request) → can_take limit req tmp ≡ true → (fields tmp).reqnb < limit
unfolding can_take
can_take-lt limit req tmp e = ground arith

-- Under TO-agg a new request joins a request of the queue unless none can take it in: the queue stays
-- well formed and within the limit, and it then carries the new request and all that it carried.
pub toagg_insert-Took :
    (limit : ℕ) (req : Request) (q : Requests) (g : ℕ)
    → IsSingle req
    → Within limit q
    → Took limit req q (toagg_insert limit req q g)
unfolding toagg_insert can_take
toagg_insert-Took limit req nil g single h = tt
toagg_insert-Took limit req (cons tmp q) g single h = elim (Bool-cases (can_take limit req tmp)) [
  | inl take ↦ rw take (
    (
      omega (arith, reqnb-include req tmp g, can_take-lt limit req tmp take),
      include-IsShaped req tmp g single h.1,
      h.2,
    ),
    λ w. omega (
      arith,
      weight-include w req tmp g h.1,
      total-cons w tmp q,
      total-cons w (include_in_aggregation req tmp g).0 q,
    ),
  )
  | inr on ↦ rw on (
      cons_first-Took limit req tmp q (toagg_insert limit req q g) on h.0 h.1
        (toagg_insert-Took limit req q g single h.2))
]

total-sw_insert :
    (w : Fields → ℕ) (stored : Request → ℤ) (p : ℤ) (r : Request) (q : Requests)
    → total w (sw_insert stored p r q) ≡ total w q + weight w r
unfolding sw_insert
total-sw_insert w stored p r nil = omega (arith, total-cons w r nil)
total-sw_insert w stored p r (cons x q) = elim (Bool-cases (ltb_ℤ p (stored x))) [
  | inl here ↦ rw here (omega (arith, total-cons w r (cons x q)))
  | inr on ↦ rw on (
      omega (
        arith,
        total-sw_insert w stored p r q,
        total-cons w x q,
        total-cons w x (sw_insert stored p r q),
      ))
]

total-place_rest :
    (w : Fields → ℕ) (given : Bool) (alg : ℕ) (r : Request) (q : Requests)
    → total w (place_rest given alg r q) ≡ total w q + weight w r
unfolding place_rest
total-place_rest w given alg r q = ground (arith, total-snoc w q r, total-timestamp_insert w r q)

-- What the queues of TWINS carry, and all timelines together.
abbrev pub total_multi : (Fields → ℕ) → List Requests → ℕ
total_multi w [] = 0
total_multi w (q ∷ qs) = total w q + total_multi w qs

abbrev pub carried : (Fields → ℕ) → Timelines → ℕ
carried w t = total w t.this_timeline + total_multi w t.multi_timeline

total_multi-set :
    (w : Fields → ℕ) (r : Request) (qs : List Requests) (i : ℕ)
    → i < length qs
    → total_multi w (set qs i (snoc (get_or qs i nil) r)) ≡ total_multi w qs + weight w r
total_multi-set w r [] i h = absurd (omega arith)
total_multi-set w r (q ∷ qs) zero h = omega (arith, total-snoc w q r)
total_multi-set w r (q ∷ qs) (suc i) h = omega (arith, total_multi-set w r qs i (omega arith))

-- What one more request leaves in the timelines.
abbrev pub Adds : Request → Timelines → Timelines → Type 0
Adds req t t' = (w : Fields → ℕ) → carried w t' ≡ carried w t + weight w req

place_ordered-Adds :
    (given : Bool) (m : Mode) (req : Request) (t : Timelines)
    → IsSingle req
    → Within m.max_aggreg_size t.this_timeline
    → Adds req t (place_ordered given m req t)
unfolding place_ordered
place_ordered-Adds given m req t single h w =
    elim (Bool-cases (m.current_alg == toagg_scheduler && ltb 1 m.max_aggreg_size)) [
      | inr plain ↦
          rw plain (omega (arith, total-place_rest w given m.current_alg req t.this_timeline))
      | inl agg ↦ rw agg (
          taken (toagg_insert m.max_aggreg_size req t.this_timeline t.g_last_timestamp)
            (toagg_insert-Took m.max_aggreg_size req t.this_timeline t.g_last_timestamp single h))
    ]
  where
    rest : Timelines
    rest = record t { this_timeline = place_rest given m.current_alg req t.this_timeline }

    taken :
        (o : Option (Requests × ℕ))
        → Took m.max_aggreg_size req t.this_timeline o
        → carried w (elim o [
          | none ↦ rest
          | some (q, g) ↦ record t { this_timeline = q; g_last_timestamp = g }
        ])
          ≡ carried w t + weight w req
    taken none k = omega (arith, total-place_rest w given m.current_alg req t.this_timeline)
    taken (some (q, g)) k = omega (arith, k.1 w)

-- Whatever the scheduler, adding a request to the timelines adds exactly this request to what they
-- carry; except that a new request is not kept under NOOP, and that TWINS needs a queue for its
-- identifier.
pub timeline_place-Adds :
    (stored : Request → ℤ) (given : Bool) (m : Mode) (req : Request) (t : Timelines)
    → (not given && m.current_alg == noop_scheduler) ≡ false
    → ((m.current_alg == twins_scheduler) ≡ false)
      ⊎ ((fields req).queue_id < length t.multi_timeline)
    → IsSingle req
    → Within m.max_aggreg_size t.this_timeline
    → Adds req t (timeline_place stored given m req t)
unfolding timeline_place
timeline_place-Adds stored given m req t kept own single h w =
    elim (Bool-cases (m.current_alg == sw_scheduler)) [
      | inl sw ↦
          rw (kept, sw)
            (omega (
              arith,
              total-sw_insert w stored (sw_priority m.config_sw_size req) req t.this_timeline,
            ))
      | inr other ↦ elim (Bool-cases (m.current_alg == twins_scheduler)) [
        | inl twins ↦ elim own [
          | inl none_of_these ↦ absurd (cc)
          | inr inside ↦
              rw (kept, other, twins)
                (omega (arith, total_multi-set w req t.multi_timeline (fields req).queue_id inside))
        ]
        | inr last ↦ rw (kept, other, last) (place_ordered-Adds given m req t single h w)
      ]
    ]
