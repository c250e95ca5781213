-- ===== src/Aggregation/Span.antt =====
-- The bytes that a virtual request says it covers, after `include_in_aggregation`.
use forwarding_explorer_agio.Prelude.{
  ℕ, ◌+◌, ◌≤◌, ◌<◌, ◌≡◌, max, min, ◌↔◌, arith, leb, if◌then◌else◌,
}
use forwarding_explorer_agio.Data.{Request, fields}
use forwarding_explorer_agio.Aggregation.{make_virtual_request, take_in, include_in_aggregation}
use forwarding_explorer_agio.Aggregation.Shape.{offset-include}

-- The end of the bytes that a request says it covers.
abbrev pub finish : Request → ℕ
finish r = (fields r).offset + (fields r).len

-- The new end is that of the part which starts later, whichever part reaches further.
pub finish-include :
    (req agg : Request) (g : ℕ)
    → finish (include_in_aggregation req agg g).0
      ≡ (if leb (fields req).offset (fields agg).offset then finish agg else finish req)
unfolding include_in_aggregation take_in make_virtual_request
finish-include req agg g = ground arith

-- The virtual request covers exactly the bytes from the first start to the last end if, and only
-- if, the part that starts later also ends later (the old aggregation counts as later on a tie).
pub include-hull_iff :
    (req agg : Request) (g : ℕ)
    → ((fields (include_in_aggregation req agg g).0).offset
        ≡ min (fields req).offset (fields agg).offset)
      × ((finish (include_in_aggregation req agg g).0 ≡ max (finish req) (finish agg)) ↔ (
          ((fields req).offset ≤ (fields agg).offset → finish req ≤ finish agg)
          × ((fields agg).offset < (fields req).offset → finish agg ≤ finish req)))
include-hull_iff req agg g = (
  offset-include req agg g,
  (
    (λ e. (
      λ h. ground (arith, finish-include req agg g),
      λ h. ground (arith, finish-include req agg g),
    )),
    λ h. ground (arith, finish-include req agg g),
  ),
)
