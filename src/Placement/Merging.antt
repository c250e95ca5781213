-- ===== src/Placement/Merging.antt =====
-- What `insert_aggregations` and `hashtable_add_req` do to the queue when a user adds a request.
use forwarding_explorer_agio.Prelude.{
  ap, ℕ, ◌+◌, ◌≤◌, ◌≡◌, refl, false, ◌&&◌, arith, ltb, Bool-cases, inl, inr, some,
}
use forwarding_explorer_agio.Data.{Fields, Request, Requests, nil, cons, fields}
use forwarding_explorer_agio.Requests.{
  snoc, append, LastView, empty, ends, last_view, last_view-ends, weight, total, total-append,
  total-cons, total-snoc,
}
use forwarding_explorer_agio.Aggregation.{
  Insertion, aggregated, unchanged, swallowed, insert_aggregations, insert_at, join_next, try_next,
  join_prev, check_aggregate, fits, include_in_aggregation, join_aggregations,
}
use forwarding_explorer_agio.Aggregation.Shape.{
  IsSingle, IsShaped, IsSingle-IsShaped, IsSingle-reqnb, include-Joined, join-Joined,
  offset-include, reqnb-include, include-IsShaped,
}
use forwarding_explorer_agio.Aggregation.Conservation.{weight-include, weight-join}
use forwarding_explorer_agio.Placement.{goes_after, find_place, settle, add_to_queue}
use forwarding_explorer_agio.Placement.Sorted.{
  IsQueue, Part, IsQueue-mono, append-IsQueue, Part-snoc, find_place-Part,
}

-- A queue that is well formed and carries a given amount of whatever is counted.
pub record Holds (limit s : ℕ) (amount : (Fields → ℕ) → ℕ) (q : Requests) : Type 0 where
  pub queue : IsQueue limit s q
  pub totals : (w : Fields → ℕ) → total w q ≡ amount w

-- The outcome of an insertion: either it says that the caller has to insert, or the queue is this.
abbrev pub Gives : ℕ → ℕ → ((Fields → ℕ) → ℕ) → Insertion → Type 0
Gives limit s amount (aggregated q g) = Holds limit s amount q
Gives limit s amount unchanged = Unit {0}
Gives limit s amount (swallowed r q g) = ⊥

module _ (limit s : ℕ) (amount : (Fields → ℕ) → ℕ) where
  middle-Holds :
      (a : Requests) (x : Request) (b : Requests)
      → Part limit s (fields x).offset a
      → (fields x).reqnb ≤ limit
      → IsShaped x
      → IsQueue limit (fields x).offset b
      → ((w : Fields → ℕ) → total w a + weight w x + total w b ≡ amount w)
      → Holds limit s amount (append a (cons x b))
  middle-Holds a x b p n shape q t = record {
    queue = append-IsQueue limit s (fields x).offset a (cons x b) p (omega arith, n, shape, q);
    totals = λ w. omega (arith, t w, total-append w a (cons x b), total-cons w x b);
  }

  join_next-Gives :
      (first : Requests) (prev : Request) (after : Requests) (g : ℕ)
      → Part limit s (fields prev).offset first
      → (fields prev).reqnb ≤ limit
      → IsShaped prev
      → IsQueue limit (fields prev).offset after
      → ((w : Fields → ℕ) → total w first + weight w prev + total w after ≡ amount w)
      → Gives limit s amount (join_next limit first prev after g)
  unfolding join_next
  join_next-Gives first prev nil g p n shape q t = middle-Holds first prev nil p n shape q t
  join_next-Gives first prev (cons next after) g p n shape q t =
      elim (Bool-cases (check_aggregate prev next && fits limit next prev)) [
        | inr apart ↦ rw apart (middle-Holds first prev (cons next after) p n shape q t)
        | inl near ↦
            let x = (join_aggregations prev next g).0 in
            let j = join-Joined prev next g q.0 shape q.2 in
            let room : (fields next).reqnb + (fields prev).reqnb ≤ limit = ground arith in
            rw near (
              middle-Holds first x after (rw j.starts p) (omega (arith, j.counts)) j.shaped
                (IsQueue-mono limit (fields x).offset (fields next).offset after
                  (omega (arith, j.starts)) q.3)
                (λ w.
                  omega
                    (arith, t w, weight-join w prev next g q.0 shape q.2, total-cons w next after)))
      ]

  module _ (req : Request) (single : IsSingle req) where
    try_next-Gives :
        (before after : Requests) (g : ℕ)
        → Part limit s (fields req).offset before
        → IsQueue limit (fields req).offset after
        → ((w : Fields → ℕ) → total w before + weight w req + total w after ≡ amount w)
        → Gives limit s amount (try_next limit req before after g)
    unfolding try_next
    try_next-Gives before nil g p q t = tt
    try_next-Gives before (cons next after) g p q t =
        elim (Bool-cases (check_aggregate req next && fits limit next req)) [
          | inr apart ↦ rw apart tt
          | inl near ↦
              let x = (include_in_aggregation req next g).0 in
              let e : (fields x).offset ≡ (fields req).offset =
                omega (arith, offset-include req next g) in
              let room : (fields next).reqnb + (fields req).reqnb ≤ limit = ground arith in
              let one : ltb 1 (fields req).reqnb ≡ false =
                ground (arith, IsSingle-reqnb req single) in
              rw (near, one)
                (middle-Holds before x after (rw e p)
                  (omega (arith, reqnb-include req next g, IsSingle-reqnb req single))
                  (include-IsShaped req next g single q.2)
                  (IsQueue-mono limit (fields x).offset (fields next).offset after (omega arith)
                    q.3)
                  (λ w.
                    omega (arith, t w, weight-include w req next g q.2, total-cons w next after)))
        ]

    insert_at-Gives :
        (v : LastView) (before after : Requests) (g : ℕ)
        → Part limit s (fields req).offset before
        → IsQueue limit (fields req).offset after
        → ((w : Fields → ℕ) → total w before + weight w req + total w after ≡ amount w)
        → ((a : Requests) (r : Request) → v ≡ ends a r → before ≡ snoc a r)
        → Gives limit s amount (insert_at limit req v before after g)
    unfolding insert_at join_prev
    insert_at-Gives empty before after g p q t e = try_next-Gives before after g p q t
    insert_at-Gives (ends a prev) before after g p q t e =
        elim (Bool-cases (check_aggregate prev req && fits limit prev req)) [
          | inr apart ↦ rw apart (try_next-Gives before after g p q t)
          | inl near ↦
              let x = (include_in_aggregation req prev g).0 in
              let whole = e a prev refl in
              let (p', n, shape, le) =
                Part-snoc limit s (fields req).offset a prev (rw whole at p) in
              let j = include-Joined prev req g le shape single in
              let room : (fields prev).reqnb + (fields req).reqnb ≤ limit = ground arith in
              let one : ltb 1 (fields req).reqnb ≡ false =
                ground (arith, IsSingle-reqnb req single) in
              rw (near, one)
                (join_next-Gives a x after (include_in_aggregation req prev g).1 (rw j.starts p')
                  (omega (arith, j.counts)) j.shaped
                  (IsQueue-mono limit (fields x).offset (fields req).offset after
                    (omega (arith, j.starts)) q)
                  (λ w. omega (
                    arith,
                    t w,
                    weight-include w req prev g shape,
                    ap (total w) whole,
                    total-snoc w a prev,
                  )))
        ]

find_place-append :
    (req : Request) (q : Requests) → append (find_place req q).before (find_place req q).after ≡ q
unfolding find_place
find_place-append req nil = refl
find_place-append req (cons tmp q) = elim (Bool-cases (goes_after tmp req)) [
  | inl stop ↦ rw stop
  | inr go ↦ rw go (ap (cons tmp) (find_place-append req q))
]

module _ (limit g : ℕ) (req : Request) (q : Requests) where
  abbrev amount : (Fields → ℕ) → ℕ
  amount w = total w q + weight w req

  settle-Holds :
      (i : Insertion) (s : ℕ)
      → (fields req).reqnb ≤ limit
      → IsSingle req
      → Part limit s (fields req).offset (find_place req q).before
      → IsQueue limit (fields req).offset (find_place req q).after
      → Gives limit s amount i
      → (q' : Requests) × (g' : ℕ) × (settle req (find_place req q) i g ≡ some (q', g'))
        × Holds limit s amount q'
  unfolding settle
  settle-Holds (aggregated q' g') s room single p r h = (q', g', refl, h)
  settle-Holds unchanged s room single p r h =
      let c = find_place req q in
      (
        append c.before (cons req c.after),
        g,
        refl,
        middle-Holds limit s amount c.before req c.after p room (IsSingle-IsShaped req single) r
            (λ w.
              omega
                (arith, total-append w c.before c.after, ap (total w) (find_place-append req q))),
      )
  settle-Holds (swallowed r q' g') s room single p r' h = absurd h

  -- Adding a single request to a well-formed queue always succeeds, keeps the queue sorted by offset and
  -- its requests well formed and within the limit, and adds exactly this request to what it carries.
  pub add_to_queue-Holds :
      1 ≤ limit
      → IsSingle req
      → IsQueue limit 0 q
      → (q' : Requests) × (g' : ℕ) × (add_to_queue limit req q g ≡ some (q', g'))
        × Holds limit 0 amount q'
  unfolding add_to_queue insert_aggregations
  add_to_queue-Holds pos single h =
      let c = find_place req q in
      let (p, r) = find_place-Part limit 0 req q (omega arith) h in
      settle-Holds _ 0 (omega (arith, IsSingle-reqnb req single)) single p r (
        insert_at-Gives limit 0 amount req single (last_view c.before) c.before c.after g p r
          (λ w.
            omega (arith, total-append w c.before c.after, ap (total w) (find_place-append req q)))
          (last_view-ends c.before))
