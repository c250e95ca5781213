-- ===== src/Aggregation/Shape.antt =====
-- The shape of requests that the aggregation functions of agios_add_request.c keep: a virtual
-- request counts its sub-requests, which are single requests, and none starts before it.
use forwarding_explorer_agio.Prelude.{
  ℕ, suc, ◌+◌, ◌≤◌, ◌≡◌, refl, min, true, false, arith, ◌==◌, leb, Bool-cases, inl, inr, ◌∙◌,
}
use forwarding_explorer_agio.Data.{Fields, Request, request, Requests, nil, cons, fields}
use forwarding_explorer_agio.Requests.{snoc, count, count-snoc}
use forwarding_explorer_agio.Aggregation.{
  make_virtual_request, take_in, include_in_aggregation, include_all, join_aggregations,
}

-- A request that is no aggregation.
abbrev pub IsSingle : Request → Type 0
IsSingle (request f nil) = f.reqnb ≡ 1
IsSingle (request f (cons r a)) = ⊥

-- Single requests that start at `start` or later.
abbrev pub Members : ℕ → Requests → Type 0
Members start nil = Unit {0}
Members start (cons r a) = IsSingle r × (start ≤ (fields r).offset) × Members start a

-- The same of a request that counts `n` and starts at `start`, with these sub-requests.
abbrev pub Counts : ℕ → ℕ → Requests → Type 0
Counts n start nil = n ≡ 1
Counts n start (cons r a) = (n ≡ suc (count a)) × (1 ≤ count a) × Members start (cons r a)

abbrev pub IsShaped : Request → Type 0
IsShaped (request f a) = Counts f.reqnb f.offset a

pub IsSingle-IsShaped : (r : Request) → IsSingle r → IsShaped r
IsSingle-IsShaped (request f nil) h = h
IsSingle-IsShaped (request f (cons r a)) h = absurd h

pub IsSingle-reqnb : (r : Request) → IsSingle r → (fields r).reqnb ≡ 1
IsSingle-reqnb (request f nil) h = h
IsSingle-reqnb (request f (cons r a)) h = absurd h

-- A well-formed request counts one exactly if it is single.
pub IsShaped-IsSingle : (r : Request) → IsShaped r → (fields r).reqnb ≡ 1 → IsSingle r
IsShaped-IsSingle (request f nil) h e = h
IsShaped-IsSingle (request f (cons r a)) h e = absurd (omega arith)

pub IsShaped-reqnb : (r : Request) → IsShaped r → 1 ≤ (fields r).reqnb
IsShaped-reqnb (request f nil) h = omega arith
IsShaped-reqnb (request f (cons r a)) h = omega arith

pub Members-mono : (s t : ℕ) (a : Requests) → s ≤ t → Members t a → Members s a
Members-mono s t nil h m = tt
Members-mono s t (cons r a) h m = (m.0, omega arith, Members-mono s t a h m.2)

pub Members-snoc :
    (s : ℕ) (a : Requests) (r : Request)
    → Members s a
    → IsSingle r
    → s ≤ (fields r).offset
    → Members s (snoc a r)
Members-snoc s nil r m h k = (h, k, tt)
Members-snoc s (cons x a) r m h k = (m.0, m.1, Members-snoc s a r m.2 h k)

pub offset-include :
    (req agg : Request) (g : ℕ)
    → (fields (include_in_aggregation req agg g).0).offset
      ≡ min (fields req).offset (fields agg).offset
unfolding include_in_aggregation take_in make_virtual_request
offset-include req agg g = ground arith

pub reqnb-include :
    (req agg : Request) (g : ℕ)
    → (fields (include_in_aggregation req agg g).0).reqnb ≡ (fields agg).reqnb + 1
unfolding include_in_aggregation take_in make_virtual_request
reqnb-include req agg g = ground arith

-- Two members or more, counted by `reqnb`, make a shaped virtual request.
count-Counts :
    (n start : ℕ) (a : Requests) → n ≡ count a → 2 ≤ count a → Members start a → Counts n start a
count-Counts n start nil e h m = absurd (omega arith)
count-Counts n start (cons r a) e h m = (omega arith, omega arith, m)

take_in-IsShaped :
    (req : Request) (f : Fields) (a : Requests)
    → IsSingle req
    → f.reqnb ≡ count a
    → 1 ≤ count a
    → Members f.offset a
    → IsShaped (take_in req (request f a))
unfolding take_in
take_in-IsShaped req f a single e h m = elim (Bool-cases (leb (fields req).offset f.offset)) [
  | inl front ↦ rw front (
      count-Counts (f.reqnb + 1) (fields req).offset (cons req a) (omega arith) (omega arith)
        (single, omega arith, Members-mono (fields req).offset f.offset a (ground arith) m))
  | inr back ↦ rw back (
      count-Counts (f.reqnb + 1) f.offset (snoc a req) (omega (arith, count-snoc a req))
        (omega (arith, count-snoc a req)) (Members-snoc f.offset a req m single (ground arith)))
]

pub include-IsShaped :
    (req agg : Request) (g : ℕ)
    → IsSingle req
    → IsShaped agg
    → IsShaped (include_in_aggregation req agg g).0
unfolding include_in_aggregation make_virtual_request
include-IsShaped req (request f nil) g single shape =
    let one : (f.reqnb == 1) ≡ true = ground arith in
    rw one (
      take_in-IsShaped req (record f { user_id = 0; dispatch_timestamp = 0; reqnb = 1 })
        (cons (request f nil) nil) single refl (omega arith) (shape, omega arith, tt))
include-IsShaped req (request f (cons r a)) g single shape =
    let many : (f.reqnb == 1) ≡ false = ground arith in
    rw many (take_in-IsShaped req f (cons r a) single shape.0 (omega arith) shape.2)

pub include_all-IsShaped :
    (rs : Requests) (head : Request) (g : ℕ)
    → Members (fields head).offset rs
    → IsShaped head
    → IsShaped (include_all rs head g).0
      × ((fields (include_all rs head g).0).offset ≡ (fields head).offset)
      × ((fields (include_all rs head g).0).reqnb ≡ (fields head).reqnb + count rs)
unfolding include_all
include_all-IsShaped nil head g m shape = (shape, refl, omega arith)
include_all-IsShaped (cons r rs) head g m shape =
    let h = (include_in_aggregation r head g).0 in
    let same : (fields h).offset ≡ (fields head).offset = omega (arith, offset-include r head g) in
    let rest =
      include_all-IsShaped rs h (include_in_aggregation r head g).1
        (Members-mono (fields h).offset (fields head).offset rs (omega arith) m.2)
        (include-IsShaped r head g m.0 shape) in
    (rest.0, rest.1 ∙ same, omega (arith, rest.2, reqnb-include r head g))

-- The outcome of joining `tail` to a request that starts no later.
pub record Joined (head tail r : Request) : Type 0 where
  pub shaped : IsShaped r
  pub starts : (fields r).offset ≡ (fields head).offset
  pub counts : (fields r).reqnb ≡ (fields head).reqnb + (fields tail).reqnb

pub include-Joined :
    (head tail : Request) (g : ℕ)
    → (fields head).offset ≤ (fields tail).offset
    → IsShaped head
    → IsSingle tail
    → Joined head tail (include_in_aggregation tail head g).0
include-Joined head tail g h shape single = record {
  shaped = include-IsShaped tail head g single shape;
  starts = omega (arith, offset-include tail head g);
  counts = omega (arith, reqnb-include tail head g, IsSingle-reqnb tail single);
}

pub join-Joined :
    (head tail : Request) (g : ℕ)
    → (fields head).offset ≤ (fields tail).offset
    → IsShaped head
    → IsShaped tail
    → Joined head tail (join_aggregations head tail g).0
unfolding join_aggregations
join-Joined head (request f nil) g h shape t =
    let one : (f.reqnb == 1) ≡ true = ground arith in
    rw one (include-Joined head (request f nil) g h shape t)
join-Joined head (request f (cons r a)) g h shape t =
    let many : (f.reqnb == 1) ≡ false = ground arith in
    let all =
      include_all-IsShaped (cons r a) head g
        (Members-mono (fields head).offset f.offset (cons r a) h t.2) shape in
    rw many (record { shaped = all.0; starts = all.1; counts = omega (arith, all.2, t.0) })
