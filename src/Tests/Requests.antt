-- ===== src/Tests/Requests.antt =====
-- The theorems on the queues of requests, on queues of one or two requests.
use forwarding_explorer_agio.Prelude.{
  ℕ, ◌+◌, ◌≤◌, ◌<◌, ◌≡◌, refl, ◌≢◌, ◌↔◌, inl, false, [], none, some, arith, min, max,
}
use forwarding_explorer_agio.Prelude.Int.{pos}
use forwarding_explorer_agio.Data.{Fields, Request, Requests, nil, cons, fields}
use forwarding_explorer_agio.Requests.{total, weight, append}
use forwarding_explorer_agio.Aggregation.{join_aggregations, include_in_aggregation}
use forwarding_explorer_agio.Aggregation.Shape.{Members, IsShaped}
use forwarding_explorer_agio.Aggregation.Conservation.{weight-join}
use forwarding_explorer_agio.Aggregation.Span.{finish, include-hull_iff}
use forwarding_explorer_agio.Placement.{add_to_queue}
use forwarding_explorer_agio.Placement.Merging.{Holds, add_to_queue-Holds}
use forwarding_explorer_agio.Placement.Sorted.{IsQueue}
use forwarding_explorer_agio.Cancel.{shrink, cancel_in}
use forwarding_explorer_agio.Cancel.Shrinking.{Shrunk, shrink-Shrunk}
use forwarding_explorer_agio.Cancel.Queues.{Cancelled, cancel_in-Cancelled}
use forwarding_explorer_agio.Timeline.{Mode, Timelines, timeline_place, reorder_timeline}
use forwarding_explorer_agio.Timeline.Arrival.{Ordered, reorder_timeline-Ordered}
use forwarding_explorer_agio.Timeline.Conservation.{Within, Adds, timeline_place-Adds}
use forwarding_explorer_agio.Quanta.Growth.{passes, passes-selects}
use forwarding_explorer_agio.Schedulers.{toagg_scheduler, to_scheduler}
use forwarding_explorer_agio.Tests.Data.{single, virtual}

abbrev two : Requests
two = cons (virtual 0) (cons (single 40 73 5) nil)

abbrev new : Request
new = single 20 76 8

virtual-Members : Members 0 (cons (single 0 71 2) (cons (single 10 72 3) nil))
virtual-Members = (refl, omega arith, (refl, omega arith, tt))

virtual_shape : IsShaped (virtual 0)
virtual_shape = (refl, omega arith, virtual-Members)

two-IsQueue : IsQueue 16 0 two
two-IsQueue = (omega arith, omega arith, virtual_shape, (omega arith, omega arith, refl, tt))

two-Within : Within 16 two
two-Within = (omega arith, virtual_shape, (omega arith, refl, tt))

add_to_queue-Holds_example :
    (q' : Requests) × (g' : ℕ) × (add_to_queue 16 new two 8 ≡ some (q', g'))
    × Holds 16 0 (λ w. total w two + weight w new) q'
add_to_queue-Holds_example = add_to_queue-Holds 16 8 new two (omega arith) refl two-IsQueue

weight-join_example :
    weight (λ f. f.len) (join_aggregations (virtual 0) new 8).0
    ≡ weight (λ f. f.len) (virtual 0) + weight (λ f. f.len) new
weight-join_example = weight-join (λ f. f.len) (virtual 0) new 8 (omega arith) virtual_shape refl

include-hull_iff_example :
    ((fields (include_in_aggregation new (virtual 0) 8).0).offset ≡ min 20 0)
    × ((finish (include_in_aggregation new (virtual 0) 8).0 ≡ max 30 20)
        ↔ ((20 ≤ 0 → 30 ≤ 20) × (0 < 20 → 20 ≤ 30)))
include-hull_iff_example = include-hull_iff new (virtual 0) 8

shrink-Shrunk_example :
    Shrunk
      (fields (virtual 0))
      (single 0 71 2)
      nil
      (shrink (fields (virtual 0)) (cons (single 0 71 2) nil))
shrink-Shrunk_example =
    shrink-Shrunk (fields (virtual 0)) 0 (single 0 71 2) nil refl (refl, omega arith, tt)

-- The second part of the virtual request is cancelled.
cancel_in-Cancelled_example :
    Cancelled 10 10 two
      (record { req = single 10 72 3; rest = cons (single 0 71 2) (cons (single 40 73 5) nil) })
unfolding cancel_in
cancel_in-Cancelled_example = cancel_in-Cancelled 10 10 two _ (virtual_shape, (refl, tt)) refl

abbrev toagg : Mode
toagg = record { current_alg = toagg_scheduler; max_aggreg_size = 16; config_sw_size = 1000 }

abbrev to : Mode
to = record { current_alg = to_scheduler; max_aggreg_size = 1; config_sw_size = 1000 }

abbrev lines : Timelines
lines = record { this_timeline = two; multi_timeline = []; g_last_timestamp = 8 }

timeline_place-Adds_example : Adds new lines (timeline_place (λ _. pos 0) false toagg new lines)
timeline_place-Adds_example =
    timeline_place-Adds (λ _. pos 0) false toagg new lines refl (inl refl) refl two-Within

reorder_timeline-Ordered_example :
    (t' : Timelines) × (reorder_timeline (λ _. pos 0) to lines ≡ some t')
    × Ordered 0 t'.this_timeline
    × ((w : Fields → ℕ) → total w t'.this_timeline ≡ total w two)
reorder_timeline-Ordered_example = reorder_timeline-Ordered (λ _. pos 0) to refl lines refl

passes-selects_example : (passes 1 (4 + 1) (append nil (cons new nil))).selected ≢ none
passes-selects_example =
    passes-selects 1 4 nil new nil (omega arith) refl (omega arith) (omega arith)
