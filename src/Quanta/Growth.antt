-- ===== src/Quanta/Growth.antt =====
-- The factor of MLF.c and aIOLi.c doubles with every pass over the queue, so that a request is
-- covered in time, unless it is too large for the arithmetic.
use forwarding_explorer_agio.Prelude.{
  ℕ, zero, suc, ◌*◌, ◌^◌, ◌%◌, ◌≤◌, ◌<◌, ◌≡◌, ◌≢◌, refl, ap, ◌∙◌, Bool, true, false, ◌==◌,
  if◌then◌else◌, arith, Option, none,
}
use forwarding_explorer_agio.Data.{Request, request, Requests, nil, cons, fields}
use forwarding_explorer_agio.Requests.{append}
use forwarding_explorer_agio.Waiting.{increment_sched_factor}
use forwarding_explorer_agio.Quanta.{covers, apply_mlf_onlist, Pass, choose_first}

-- `n` passes over a queue, and what the last one selects.
unfoldable pub passes : (quantum : ℕ) → ℕ → Requests → Pass
passes quantum zero q = record { list = q; selected = none }
passes quantum (suc n) q = apply_mlf_onlist quantum (passes quantum n q).list

unfoldable increments : ℕ → Request → Request
increments zero r = r
increments (suc n) r = increment_sched_factor (increments n r)

len-increment : (r : Request) → (fields (increment_sched_factor r)).len ≡ (fields r).len
unfolding increment_sched_factor
len-increment (request f a) = refl

factor-increment :
    (r : Request)
    → (fields (increment_sched_factor r)).sched_factor
      ≡ (if (fields r).sched_factor == 0 then 1 else (fields r).sched_factor * 2 % 2 ^ 32)
unfolding increment_sched_factor
factor-increment (request f a) = refl

len-increments : (n : ℕ) (r : Request) → (fields (increments n r)).len ≡ (fields r).len
unfolding increments
len-increments zero r = refl
len-increments (suc n) r = len-increment (increments n r) ∙ len-increments n r

double : (a : ℕ) → 1 ≤ a → a * 2 < 2 ^ 32 → (if a == 0 then 1 else a * 2 % 2 ^ 32) ≡ a * 2
double a h k = ground arith

pow_pos : (n : ℕ) → 1 ≤ 2 ^ n
pow_pos zero = omega arith
pow_pos (suc n) = let ih = pow_pos n in omega arith

factor-increments :
    (n : ℕ) (r : Request)
    → (fields r).sched_factor ≡ 0
    → 2 ^ n < 2 ^ 32
    → (fields (increments (suc n) r)).sched_factor ≡ 2 ^ n
unfolding increments
factor-increments zero r h k = factor-increment r ∙ rw h refl
factor-increments (suc n) r h k =
    let ih = factor-increments n r h (omega arith) in
    rw (factor-increment (increments (suc n) r), ih, double (2 ^ n) (pow_pos n) (omega arith))
      (omega arith)

-- One pass: every request's factor goes up, and one that its quantum covers is not passed over.
apply-append :
    (quantum : ℕ) (p : Requests) (r : Request) (s : Requests)
    → (apply_mlf_onlist quantum (append p (cons r s))).list
      ≡ append
          (apply_mlf_onlist quantum p).list
          (cons (increment_sched_factor r) (apply_mlf_onlist quantum s).list)
unfolding apply_mlf_onlist
apply-append quantum nil r s = refl
apply-append quantum (cons x p) r s =
    ap (cons (increment_sched_factor x)) (apply-append quantum p r s)

chosen :
    (b : Bool) (x : Request) (later : Option Request) → later ≢ none → choose_first b x later ≢ none
chosen true x later h = λ e. cc
chosen false x later h = h

apply-selects :
    (quantum : ℕ) (p : Requests) (r : Request) (s : Requests)
    → covers quantum (increment_sched_factor r) ≡ true
    → (apply_mlf_onlist quantum (append p (cons r s))).selected ≢ none
unfolding apply_mlf_onlist
apply-selects quantum nil r s h = rw h (λ e. cc)
apply-selects quantum (cons x p) r s h =
    chosen (covers quantum (increment_sched_factor x)) (increment_sched_factor x) _
      (apply-selects quantum p r s h)

passes-append :
    (quantum n : ℕ) (p : Requests) (r : Request) (s : Requests)
    → (p' : Requests) × (s' : Requests) × ((passes quantum n (append p (cons r s))).list
        ≡ append p' (cons (increments n r) s'))
unfolding passes increments
passes-append quantum zero p r s = (p, s, refl)
passes-append quantum (suc n) p r s =
    let (p', s', e) = passes-append quantum n p r s in
    (
      (apply_mlf_onlist quantum p').list,
      (apply_mlf_onlist quantum s').list,
      rw e (apply-append quantum p' (increments n r) s'),
    )

covers-increments :
    (quantum n : ℕ) (r : Request)
    → 1 ≤ quantum
    → (fields r).sched_factor ≡ 0
    → (fields r).len ≤ 2 ^ n * quantum
    → 2 ^ n * quantum < 2 ^ 31
    → covers quantum (increments (suc n) r) ≡ true
unfolding covers
covers-increments quantum n r one h fits small =
    rw (factor-increments n r h (grind arith), len-increments (suc n) r) (ground arith)

-- A queue of MLF that holds a request that has just come, wherever it stands, whose size is at most
-- `2 ^ n` quanta of at least one byte, where `2 ^ n` quanta are less than `2 ^ 31`: after `n` passes over
-- the queue, which else stays as it is, the next one selects some request of it.
pub passes-selects :
    (quantum n : ℕ) (p : Requests) (r : Request) (s : Requests)
    → 1 ≤ quantum
    → (fields r).sched_factor ≡ 0
    → (fields r).len ≤ 2 ^ n * quantum
    → 2 ^ n * quantum < 2 ^ 31
    → (passes quantum (suc n) (append p (cons r s))).selected ≢ none
unfolding passes increments
passes-selects quantum n p r s one h fits small =
    let (p', s', e) = passes-append quantum n p r s in
    rw e (
      apply-selects quantum p' (increments n r) s' (covers-increments quantum n r one h fits small))
