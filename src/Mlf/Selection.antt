-- ===== src/Mlf/Selection.antt =====
-- What a step of MLF.c does to the queues of a file: it loses the selected request, and nothing else
-- changes but the factors.
use forwarding_explorer_agio.Prelude.{
  ℕ, ◌+◌, ◌≡◌, refl, ◌⊎◌, inl, inr, Option, none, some, arith, Bool-cases,
}
use forwarding_explorer_agio.Aggregation.Shape.{IsShaped}
use forwarding_explorer_agio.Cancel.Queues.{AllShaped}
use forwarding_explorer_agio.Data.{Fields, Request, request, Requests, nil, cons, File}
use forwarding_explorer_agio.Mlf.{take_covered}
use forwarding_explorer_agio.Quanta.{covers, apply_mlf_onlist}
use forwarding_explorer_agio.Requests.{total, weight, total-cons}
use forwarding_explorer_agio.Waiting.{increment_sched_factor}

-- A measure that does not see the factor.
abbrev pub plain : (Fields → ℕ) → Fields → ℕ
plain w f = w (record f { sched_factor = 0 })

abbrev pub FileShaped : File → Type 0
FileShaped f = AllShaped f.read_queue.list × AllShaped f.write_queue.list

pub weight-increment :
    (w : Fields → ℕ) (r : Request)
    → weight (plain w) (increment_sched_factor r) ≡ weight (plain w) r
unfolding weight increment_sched_factor
weight-increment w (request f nil) = refl
weight-increment w (request f (cons r a)) = refl

pub increment-IsShaped : (r : Request) → IsShaped r → IsShaped (increment_sched_factor r)
unfolding increment_sched_factor
increment-IsShaped (request f nil) h = h
increment-IsShaped (request f (cons r a)) h = h

-- The queue `q'` is `q` without request `r`.
pub record Without (q : Requests) (r : Request) (q' : Requests) : Type 0 where
  pub carries : (w : Fields → ℕ) → total (plain w) q' + weight (plain w) r ≡ total (plain w) q
  pub shape : IsShaped r
  pub shaped : AllShaped q'

-- The queue `p` after a pass over `q`, and what the pass selects.
pub record Passed (quantum : ℕ) (q p : Requests) : Type 0 where
  pub carries : (w : Fields → ℕ) → total (plain w) p ≡ total (plain w) q
  pub shaped : AllShaped p

abbrev pub Selects : ℕ → Requests → Option Request → Type 0
Selects quantum p o =
    ((o ≡ none) × (take_covered quantum p ≡ none))
    ⊎ ((r : Request) × (q' : Requests) × (o ≡ some r)
        × (take_covered quantum p ≡ some q')
        × Without p r q')

pub apply-Passed :
    (quantum : ℕ) (q : Requests) → AllShaped q → Passed quantum q (apply_mlf_onlist quantum q).list
unfolding apply_mlf_onlist
apply-Passed quantum nil h = record { carries = λ w. refl; shaped = tt }
apply-Passed quantum (cons r q) h =
    let rest = apply-Passed quantum q h.1 in
    record {
      carries = λ w. omega (
        arith,
        weight-increment w r,
        total-cons (plain w) r q,
        total-cons (plain w) (increment_sched_factor r) (apply_mlf_onlist quantum q).list,
        rest.carries w,
      );
      shaped = (increment-IsShaped r h.0, rest.shaped);
    }

first-Without : (r : Request) (q : Requests) → AllShaped (cons r q) → Without (cons r q) r q
first-Without r q h = record {
  carries = λ w. omega (arith, total-cons (plain w) r q);
  shape = h.0;
  shaped = h.1;
}

later-Without :
    (x r : Request) (q q' : Requests)
    → IsShaped x
    → Without q r q'
    → Without (cons x q) r (cons x q')
later-Without x r q q' s h = record {
  carries = λ w. omega (arith, total-cons (plain w) x q, total-cons (plain w) x q', h.carries w);
  shape = h.shape;
  shaped = (s, h.shaped);
}

pub apply-Selects :
    (quantum : ℕ) (q : Requests)
    → AllShaped q
    → Selects quantum (apply_mlf_onlist quantum q).list (apply_mlf_onlist quantum q).selected
unfolding apply_mlf_onlist take_covered
apply-Selects quantum nil h = inl (refl, refl)
apply-Selects quantum (cons r q) h =
    let x = increment_sched_factor r in
    let p = (apply_mlf_onlist quantum q).list in
    let shaped = (apply-Passed quantum q h.1).shaped in
    let s = increment-IsShaped r h.0 in
    elim (Bool-cases (covers quantum x)) [
      | inl here ↦ inr (x, p, rw here refl, rw here refl, first-Without x p (s, shaped))
      | inr on ↦ elim (apply-Selects quantum q h.1) [
        | inl (e, t) ↦ inl (rw (on, e) refl, rw (on, t) refl)
        | inr (y, q', e, t, w) ↦
            inr (y, cons x q', rw (on, e) refl, rw (on, t) refl, later-Without x y p q' s w)
      ]
    ]
