-- ===== src/Cancel/Shrinking.antt =====
-- The virtual request that agios_cancel_request.c leaves: it spans exactly what its remaining
-- sub-requests say.
use forwarding_explorer_agio.Prelude.{
  true, false, ℕ, suc, ◌+◌, ◌-◌, ◌≤◌, ◌≡◌, refl, ap, sym, ◌∙◌, min, max, arith, ◌==◌,
}
use mathlib.Core.Path.{subst}
use forwarding_explorer_agio.Data.{Fields, Request, Requests, nil, cons, fields}
use forwarding_explorer_agio.Requests.{count, weight, total}
use forwarding_explorer_agio.Aggregation.Shape.{
  IsShaped, IsSingle-IsShaped, IsSingle-reqnb, Members,
}
use forwarding_explorer_agio.Cancel.{extend_by, extend_all, recalculate, shrink}

-- The first start and the last end of a list of requests, from given ones on.
abbrev pub first_start : ℕ → Requests → ℕ
first_start o nil = o
first_start o (cons r a) = first_start (min o (fields r).offset) a

abbrev pub last_end : ℕ → Requests → ℕ
last_end e nil = e
last_end e (cons r a) = last_end (max e ((fields r).offset + (fields r).len)) a

extend_by-hull :
    (f t : Fields)
    → ((extend_by f t).offset ≡ min f.offset t.offset)
      × ((extend_by f t).offset + (extend_by f t).len ≡ max (f.offset + f.len) (t.offset + t.len))
      × ((extend_by f t).reqnb ≡ f.reqnb)
unfolding extend_by
extend_by-hull f t = (ground arith, ground arith, refl)

extend_all-hull :
    (f : Fields) (a : Requests)
    → ((extend_all f a).offset ≡ first_start f.offset a)
      × ((extend_all f a).offset + (extend_all f a).len ≡ last_end (f.offset + f.len) a)
      × ((extend_all f a).reqnb ≡ f.reqnb)
unfolding extend_all
extend_all-hull f nil = (refl, refl, refl)
extend_all-hull f (cons r a) =
    let g = extend_by f (fields r) in
    let h = extend_by-hull f (fields r) in
    let rest = extend_all-hull g a in
    (rest.0 ∙ ap (λ o. first_start o a) h.0, rest.1 ∙ ap (λ e. last_end e a) h.1, rest.2 ∙ h.2)

first_start-le : (o : ℕ) (a : Requests) → first_start o a ≤ o
first_start-le o nil = omega arith
first_start-le o (cons r a) = omega (arith, first_start-le (min o (fields r).offset) a)

first_start-Members : (o s : ℕ) (a : Requests) → Members s a → Members (first_start o a) a
first_start-Members o s nil m = tt
first_start-Members o s (cons r a) m = (
  m.0,
  omega (arith, first_start-le (min o (fields r).offset) a),
  first_start-Members (min o (fields r).offset) s a m.2,
)

recalculate-hull :
    (f : Fields) (r : Request) (a : Requests)
    → ((recalculate f (cons r a)).offset ≡ first_start (fields r).offset a)
      × ((recalculate f (cons r a)).offset + (recalculate f (cons r a)).len
          ≡ last_end ((fields r).offset + (fields r).len) a)
unfolding recalculate
recalculate-hull f r a =
    let t = fields r in
    let h =
      extend_all-hull
        (record f {
          offset = t.offset;
          len = t.len;
          arrival_time = t.arrival_time;
          timestamp = t.timestamp;
        })
        a in
    (h.0, h.1)

-- What is left of a virtual request whose sub-requests are `r` and `a` after one has gone.
pub record Shrunk (f : Fields) (r : Request) (a : Requests) (s : Request) : Type 0 where
  pub shaped : IsShaped s
  pub counts : (fields s).reqnb ≡ suc (count a)
  pub starts : (fields s).offset ≡ first_start (fields r).offset a
  pub ends : (fields s).offset + (fields s).len ≡ last_end ((fields r).offset + (fields r).len) a
  pub carries : (w : Fields → ℕ) → weight w s ≡ total w (cons r a)

-- After a cancelled sub-request has left, the virtual request counts those that remain and spans
-- exactly from their first start to their last end; a single one that remains takes its place.
pub shrink-Shrunk :
    (f : Fields) (start : ℕ) (r : Request) (a : Requests)
    → f.reqnb ≡ suc (suc (count a))
    → Members start (cons r a)
    → Shrunk f r a (shrink f (cons r a))
unfolding shrink weight total
shrink-Shrunk f start r nil e m =
    let one : (f.reqnb - 1 == 1) ≡ true = ground arith in
    rw one (record {
      shaped = IsSingle-IsShaped r m.0;
      counts = IsSingle-reqnb r m.0;
      starts = refl;
      ends = refl;
      carries = λ w. omega arith;
    })
shrink-Shrunk f start r (cons x a) e m =
    let many : (f.reqnb - 1 == 1) ≡ false = ground arith in
    let h = recalculate-hull f r (cons x a) in
    rw many (record {
      shaped = (
        omega arith,
        omega arith,
        (
          m.0,
          omega (arith, h.0, first_start-le (fields r).offset (cons x a)),
          subst (λ o. Members o (cons x a)) (sym h.0)
              (first_start-Members (fields r).offset start (cons x a) m.2),
        ),
      );
      counts = omega arith;
      starts = h.0;
      ends = h.1;
      carries = λ w. refl;
    })

pub shrink-IsShaped :
    (f : Fields) (start : ℕ) (rest : Requests)
    → f.reqnb ≡ suc (count rest)
    → 1 ≤ count rest
    → Members start rest
    → IsShaped (shrink f rest) × ((w : Fields → ℕ) → weight w (shrink f rest) ≡ total w rest)
shrink-IsShaped f start nil e h m = absurd (omega arith)
shrink-IsShaped f start (cons r a) e h m =
    let s = shrink-Shrunk f start r a e m in (s.shaped, s.carries)
