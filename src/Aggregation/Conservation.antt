-- ===== src/Aggregation/Conservation.antt =====
-- No aggregation of agios_add_request.c loses or doubles a request that a user added.
use forwarding_explorer_agio.Prelude.{
  ℕ, ◌+◌, ◌≤◌, ◌≡◌, ◌∙◌, true, false, arith, ◌==◌, leb, Bool-cases, inl, inr,
}
use forwarding_explorer_agio.Data.{Fields, Request, request, Requests, nil, cons, fields}
use forwarding_explorer_agio.Requests.{snoc, weight, total, total-snoc}
use forwarding_explorer_agio.Aggregation.{
  make_virtual_request, take_in, include_in_aggregation, include_all, join_aggregations,
}
use forwarding_explorer_agio.Aggregation.Shape.{
  IsShaped, include-IsShaped, Members, offset-include, Members-mono,
}

module _ (w : Fields → ℕ) where
  weight-snoc :
      (f : Fields) (a : Requests) (r : Request)
      → weight w (request f (snoc a r)) ≡ total w a + weight w r
  unfolding weight
  weight-snoc f nil r = omega arith
  weight-snoc f (cons x a) r = omega (arith, total-snoc w a r)

  weight-take_in :
      (req : Request) (f : Fields) (a : Requests)
      → weight w (take_in req (request f a)) ≡ total w a + weight w req
  unfolding take_in weight
  weight-take_in req f a = elim (Bool-cases (leb (fields req).offset f.offset)) [
    | inl front ↦ rw front (omega arith)
    | inr back ↦ rw back (weight-snoc _ a req)
  ]

  -- Whatever is counted of requests, an aggregation has that of both its parts.
  pub weight-include :
      (req agg : Request) (g : ℕ)
      → IsShaped agg
      → weight w (include_in_aggregation req agg g).0 ≡ weight w agg + weight w req
  unfolding include_in_aggregation make_virtual_request weight total
  weight-include req (request f nil) g shape =
      let one : (f.reqnb == 1) ≡ true = ground arith in
      rw one (weight-take_in req _ (cons (request f nil) nil) ∙ omega arith)
  weight-include req (request f (cons r a)) g shape =
      let many : (f.reqnb == 1) ≡ false = ground arith in rw many (weight-take_in req f (cons r a))

  weight-include_all :
      (rs : Requests) (head : Request) (g : ℕ)
      → Members (fields head).offset rs
      → IsShaped head
      → weight w (include_all rs head g).0 ≡ weight w head + total w rs
  unfolding include_all weight
  weight-include_all nil head g m shape = omega arith
  weight-include_all (cons r rs) head g m shape =
      let h = (include_in_aggregation r head g).0 in
      omega (
        arith,
        weight-include r head g shape,
        weight-include_all rs h (include_in_aggregation r head g).1
            (Members-mono (fields h).offset (fields head).offset rs
              (omega (arith, offset-include r head g)) m.2)
            (include-IsShaped r head g m.0 shape),
      )

  pub weight-join :
      (head tail : Request) (g : ℕ)
      → (fields head).offset ≤ (fields tail).offset
      → IsShaped head
      → IsShaped tail
      → weight w (join_aggregations head tail g).0 ≡ weight w head + weight w tail
  unfolding join_aggregations weight
  weight-join head (request f nil) g h shape t =
      let one : (f.reqnb == 1) ≡ true = ground arith in
      rw one (weight-include (request f nil) head g shape)
  weight-join head (request f (cons r a)) g h shape t =
      let many : (f.reqnb == 1) ≡ false = ground arith in
      rw many (
        weight-include_all (cons r a) head g
          (Members-mono (fields head).offset f.offset (cons r a) h t.2) shape)
