-- ===== src/Cancel/Queues.antt =====
-- What a search of agios_cancel_request.c takes out of a queue, and what it keeps.
use forwarding_explorer_agio.Prelude.{
  ℕ, ◌+◌, ◌≢◌, ◌≡◌, refl, ap, true, false, arith, ◌==◌, Bool-cases, inl, inr, Option, none, some,
}
use mathlib.Core.Path.{subst}
use forwarding_explorer_agio.Data.{Fields, Request, request, Requests, nil, cons}
use forwarding_explorer_agio.Requests.{
  count, weight, total, append, count-append, total-append, total-cons,
}
use forwarding_explorer_agio.Aggregation.Shape.{IsShaped, IsSingle, IsShaped-IsSingle, Members}
use forwarding_explorer_agio.Release.{Taken, keep, is_match, take_match}
use forwarding_explorer_agio.Release.Found.{take_match-cases}
use forwarding_explorer_agio.Cancel.{spans, shrink, cancel_in, take_here, take_virtual}
use forwarding_explorer_agio.Cancel.Shrinking.{shrink-IsShaped}

abbrev pub AllShaped : Requests → Type 0
AllShaped nil = Unit {0}
AllShaped (cons r a) = IsShaped r × AllShaped a

pub append-AllShaped : (a b : Requests) → AllShaped a → AllShaped b → AllShaped (append a b)
append-AllShaped nil b h k = k
append-AllShaped (cons r a) b h k = (h.0, append-AllShaped a b h.1 k)

-- `t` is a cancelled single request and the queue `q` without it.
pub record Cancelled (len offset : ℕ) (q : Requests) (t : Taken) : Type 0 where
  pub matches : is_match len offset t.req ≡ true
  pub single : IsSingle t.req
  pub shaped : AllShaped t.rest
  pub carries : (w : Fields → ℕ) → total w q ≡ total w t.rest + weight w t.req

Members-remove :
    (s : ℕ) (a : Requests) (r : Request) (b : Requests)
    → Members s (append a (cons r b))
    → IsSingle r × Members s (append a b)
Members-remove s nil r b m = (m.0, m.2)
Members-remove s (cons x a) r b m = let (h, k) = Members-remove s a r b m.2 in (h, (m.0, m.1, k))

weight-virtual :
    (w : Fields → ℕ) (f : Fields) (x : Request) (xs : Requests)
    → weight w (request f (cons x xs)) ≡ total w (cons x xs)
unfolding weight total
weight-virtual w f x xs = refl

keep-Cancelled :
    (len offset : ℕ) (r : Request) (q : Requests) (t : Taken)
    → IsShaped r
    → Cancelled len offset q t
    → Cancelled len offset (cons r q) (record t { rest = cons r t.rest })
keep-Cancelled len offset r q t shape h = record {
  matches = h.matches;
  single = h.single;
  shaped = (shape, h.shaped);
  carries = λ w. omega (arith, h.carries w, total-cons w r q, total-cons w r t.rest);
}

-- The outcome of a search.
abbrev pub Outcome : ℕ → ℕ → Requests → Option Taken → Type 0
Outcome len offset q none = Unit {0}
Outcome len offset q (some t) = Cancelled len offset q t

keep-Outcome :
    (len offset : ℕ) (r : Request) (q : Requests) (o : Option Taken)
    → IsShaped r
    → Outcome len offset q o
    → Outcome len offset (cons r q) (keep r o)
keep-Outcome len offset r q none shape h = tt
keep-Outcome len offset r q (some t) shape h = keep-Cancelled len offset r q t shape h

take_virtual-Outcome :
    (len offset : ℕ) (f : Fields) (subs q : Requests) (o : Option Taken)
    → IsShaped (request f subs)
    → AllShaped q
    → (f.reqnb == 1) ≡ false
    → Outcome len offset q o
    → Outcome len offset
        (cons (request f subs) q)
        (take_virtual f subs q (take_match len offset subs) o)
take_virtual-Outcome len offset f nil q o shape all many h = absurd (ground arith)
take_virtual-Outcome len offset f (cons x xs) q o shape all many h =
    elim (take_match-cases len offset (cons x xs)) [
      | inl (e, _) ↦ rw e (keep-Outcome len offset (request f (cons x xs)) q o shape h)
      | inr (a, r, b, s, e, _, m) ↦
          let (single, members) =
            Members-remove f.offset a r b (subst (Members f.offset) s shape.2) in
          let left =
            shrink-IsShaped f f.offset (append a b)
              (omega (arith, ap count s, count-append a b, count-append a (cons r b), shape.0))
              (omega (arith, ap count s, count-append a b, count-append a (cons r b), shape.1))
              members in
          rw e (record {
            matches = m;
            single = single;
            shaped = (left.0, all);
            carries = λ w. omega (
              arith,
              total-cons w (request f (cons x xs)) q,
              total-cons w (shrink f (append a b)) q,
              weight-virtual w f x xs,
              ap (total w) s,
              total-append w a (cons r b),
              total-append w a b,
              total-cons w r b,
              left.1 w,
            );
          })
    ]

take_here-Outcome :
    (len offset : ℕ) (r : Request) (q : Requests) (o : Option Taken)
    → IsShaped r
    → AllShaped q
    → Outcome len offset q o
    → Outcome len offset (cons r q) (take_here len offset r q o)
take_here-Outcome len offset (request f subs) q o shape all h = elim (Bool-cases (f.reqnb == 1)) [
  | inl one ↦ elim (Bool-cases (is_match len offset (request f subs))) [
    | inl hit ↦
        rw (one, hit)
          (record {
            matches = hit;
            single = IsShaped-IsSingle (request f subs) shape (ground arith);
            shaped = all;
            carries = λ w. omega (arith, total-cons w (request f subs) q);
          })
    | inr miss ↦ rw (one, miss) (keep-Outcome len offset (request f subs) q o shape h)
  ]
  | inr many ↦ elim (Bool-cases (spans len offset f)) [
    | inl inside ↦ rw (many, inside) (take_virtual-Outcome len offset f subs q o shape all many h)
    | inr outside ↦ rw (many, outside) (keep-Outcome len offset (request f subs) q o shape h)
  ]
]

cancel_in-Outcome :
    (len offset : ℕ) (q : Requests) → AllShaped q → Outcome len offset q (cancel_in len offset q)
unfolding cancel_in
cancel_in-Outcome len offset nil h = tt
cancel_in-Outcome len offset (cons r q) h =
    take_here-Outcome len offset r q (cancel_in len offset q) h.0 h.1
      (cancel_in-Outcome len offset q h.1)

keep-ne-none : (r : Request) (o : Option Taken) → o ≢ none → keep r o ≢ none
keep-ne-none r none h e = h refl
keep-ne-none r (some t) h e = cc

take_virtual-ne-none :
    (f : Fields) (subs rest : Requests) (t o : Option Taken)
    → o ≢ none
    → take_virtual f subs rest t o ≢ none
take_virtual-ne-none f subs rest none o h = keep-ne-none (request f subs) o h
take_virtual-ne-none f subs rest (some t) o h = λ e. cc

take_here-ne-none :
    (len offset : ℕ) (r : Request) (q : Requests) (o : Option Taken)
    → o ≢ none
    → take_here len offset r q o ≢ none
take_here-ne-none len offset (request f subs) q o h e = ground (
  arith,
  keep-ne-none (request f subs) o h,
  take_virtual-ne-none f subs q (take_match len offset subs) o h,
)

-- A single request of the given size and offset that stands in the queue by itself is never missed.
pub cancel_in-ne-none :
    (len offset : ℕ) (a : Requests) (r : Request) (b : Requests)
    → IsSingle r
    → is_match len offset r ≡ true
    → cancel_in len offset (append a (cons r b)) ≢ none
unfolding cancel_in
cancel_in-ne-none len offset nil (request f nil) b single m e =
    let one : (f.reqnb == 1) ≡ true = ground arith in cc (one, m)
cancel_in-ne-none len offset nil (request f (cons x xs)) b single m e = absurd single
cancel_in-ne-none len offset (cons x a) r b single m e =
    take_here-ne-none len offset x (append a (cons r b))
      (cancel_in len offset (append a (cons r b))) (cancel_in-ne-none len offset a r b single m) e

-- Where a search of a queue of well-formed requests finds something, it takes out one request that a
-- user added, of the given size and offset; every other request stays, alone or in its aggregation,
-- and the requests of the queue stay well formed.
pub cancel_in-Cancelled :
    (len offset : ℕ) (q : Requests) (t : Taken)
    → AllShaped q
    → cancel_in len offset q ≡ some t
    → Cancelled len offset q t
cancel_in-Cancelled len offset q t h e =
    subst (Outcome len offset q) e (cancel_in-Outcome len offset q h)
