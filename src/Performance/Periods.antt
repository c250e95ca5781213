-- ===== src/Performance/Periods.antt =====
-- The record of performance.c keeps the newest periods, and a request counts for the period in
-- which it was dispatched.
use forwarding_explorer_agio.Prelude.{
  ℕ, zero, suc, ◌+◌, ◌-◌, ◌≤◌, ◌<◌, ◌≡◌, refl, ap, ◌∙◌, sym, Bool, true, false, none, some, List,
  [], ◌∷◌, ◌++◌, length, take, ltb, Bool-cases, inl, inr, ◌⊎◌, ◌==◌, if◌then◌else◌, arith,
}
use forwarding_explorer_agio.Prelude.Int.{ℤ, pos}
use forwarding_explorer_agio.Data.{Request, fields}
use forwarding_explorer_agio.Performance.{
  PerformanceEntry, Performance, Entries, drop_oldest, unless_empty, forget, with_entries,
  performance_set_new_algorithm, entry_among, get_request_entry, account_among, account_entry,
  account, is_current, accounted, account_request,
}
use mathlib.Core.Path.{subst}

drop_oldest-take :
    (e : PerformanceEntry) (es : List PerformanceEntry) (n : ℕ)
    → n ≤ length es
    → take n (drop_oldest (e ∷ es)) ≡ take n (e ∷ es)
drop_oldest-take e es zero h = refl
drop_oldest-take e [] (suc n) h = absurd (omega arith)
drop_oldest-take e (f ∷ es) (suc n) h = ap (◌∷◌ e) (drop_oldest-take f es n (omega arith))

length-drop_oldest : (es : List PerformanceEntry) → length (drop_oldest es) ≡ length es - 1
length-drop_oldest [] = refl
length-drop_oldest (e ∷ []) = refl
length-drop_oldest (e ∷ f ∷ es) = omega (arith, length-drop_oldest (f ∷ es))

take_whole : (es : List PerformanceEntry) (n : ℕ) → length es ≤ n → take n es ≡ es
take_whole [] zero h = refl
take_whole [] (suc n) h = refl
take_whole (e ∷ es) zero h = absurd (omega arith)
take_whole (e ∷ es) (suc n) h = ap (◌∷◌ e) (take_whole es n (omega arith))

-- The entries that are kept where the counter is `stale` above the number of entries.
abbrev pub newest : (limit stale : ℕ) → List PerformanceEntry → Entries
newest limit stale es = record {
  info = take (limit - stale) es;
  len = length (take (limit - stale) es) + stale;
}

newest-whole :
    (limit stale len : ℕ) (es : List PerformanceEntry)
    → len ≡ length es + stale
    → len ≤ limit
    → newest limit stale es ≡ record { info = es; len = len }
newest-whole limit stale len es e h =
    let whole = take_whole es (limit - stale) (omega arith) in rw (whole, e) refl

forget-newest :
    (n limit stale len : ℕ) (es : List PerformanceEntry)
    → len ≡ length es + stale
    → len ≤ n
    → stale ≤ limit
    → forget n limit len es ≡ some (newest limit stale es)
unfolding forget
forget-newest zero limit stale len es e h s =
    ap some (sym (newest-whole limit stale len es e (omega arith)))
forget-newest (suc n) limit stale len es e h s = elim (Bool-cases (ltb limit len)) [
  | inr few ↦ rw few (ap some (sym (newest-whole limit stale len es e (ground arith))))
  | inl more ↦ rw more (
      drop (λ ys k. forget-newest n limit stale (len - 1) ys k (omega arith) s) es e (ground arith))
]
  where
    drop :
        ((ys : List PerformanceEntry)
          → len - 1 ≡ length ys + stale
          → forget n limit (len - 1) ys ≡ some (newest limit stale ys))
        → (es : List PerformanceEntry) → len ≡ length es + stale
        → limit < len
        → unless_empty es (forget n limit (len - 1) (drop_oldest es)) ≡ some (newest limit stale es)
    drop ih [] e more = absurd (omega arith)
    drop ih (x ∷ es) e more =
        ih (drop_oldest (x ∷ es)) (omega (arith, length-drop_oldest (x ∷ es)))
        ∙ ap (λ ys. some (record { info = ys; len = length ys + stale }))
            (drop_oldest-take x es (limit - stale) (omega arith))

-- A new algorithm opens a new period, of which nothing has been seen, and the count of processed
-- requests starts again from 0. Where the counter of periods is right, the newest periods are kept, the
-- new one included, up to the configured number. Where it is too large by `stale`, as in a session after
-- another one, that many fewer are kept, so that the new one is freed if `stale` is the configured
-- number; there is no fault as long as `stale` is not above it.
pub performance_set_new_algorithm-take :
    (limit alg now stale : ℕ) (p : Performance)
    → p.performance_info_len ≡ length p.performance_info + stale
    → stale ≤ limit
    → let kept = take (limit - stale) (
        record { timestamp = now; alg = alg; bandwidth = pos 0; size = 0; reqnb = 0 }
        ∷ p.performance_info) in
      performance_set_new_algorithm true limit alg now p
      ≡ some (
        true,
        record {
          performance_info = kept;
          performance_info_len = length kept + stale;
          agios_processed_reqnb = 0;
        },
      )
unfolding performance_set_new_algorithm
performance_set_new_algorithm-take limit alg now stale p e s =
    let new : PerformanceEntry = record {
      timestamp = now;
      alg = alg;
      bandwidth = pos 0;
      size = 0;
      reqnb = 0;
    } in
    ap with_entries (
      forget-newest (p.performance_info_len + 1) limit stale (p.performance_info_len + 1)
        (new ∷ p.performance_info) (omega arith) (omega arith) s)

-- Periods that all began after a time.
abbrev pub Later : ℕ → List PerformanceEntry → Type 0
Later t [] = Unit {0}
Later t (e ∷ es) = (t < e.timestamp) × Later t es

-- The period of a request: the newest one that began no later than the request was dispatched.
pub record IsPeriod (req : Request) (before : List PerformanceEntry) (e : PerformanceEntry)
    : Type 0 where
  pub began : e.timestamp ≤ (fields req).dispatch_timestamp
  pub newest : Later (fields req).dispatch_timestamp before

account_among-IsPeriod :
    (req : Request) (bw : ℤ) (es : List PerformanceEntry)
    → ((entry_among req es ≡ none)
        × Later (fields req).dispatch_timestamp es
        × (account_among req bw es ≡ es))
      ⊎ ((a : List PerformanceEntry) × (e : PerformanceEntry) × (b : List PerformanceEntry) × (es
            ≡ a ++ e ∷ b)
          × IsPeriod req a e
          × (entry_among req es ≡ some e)
          × (account_among req bw es ≡ a ++ account req bw e ∷ b))
unfolding account_among
account_among-IsPeriod req bw [] = inl (refl, tt, refl)
account_among-IsPeriod req bw (e ∷ es) =
    elim (Bool-cases (ltb (fields req).dispatch_timestamp e.timestamp)) [
      | inr here ↦
          inr ([], e, es, refl, record { began = ground arith; newest = tt }, rw here, rw here)
      | inl later ↦ elim (account_among-IsPeriod req bw es) [
        | inl (g, l, k) ↦ inl (rw later g, (ground arith, l), rw later (ap (◌∷◌ e) k))
        | inr (a, f, b, s, p, g, k) ↦ inr (
          e ∷ a,
          f,
          b,
          ap (◌∷◌ e) s,
          record { began = p.began; newest = (ground arith, p.newest) },
          rw later g,
          rw later (ap (◌∷◌ e) k),
        )
      ]
    ]

pub account_entry-IsPeriod :
    (req : Request) (bw : ℤ) (current : PerformanceEntry) (older : List PerformanceEntry)
    → let es = current ∷ older in
      ((get_request_entry req es ≡ some none)
        × Later (fields req).dispatch_timestamp es
        × (account_entry req bw es ≡ some es))
      ⊎ ((a : List PerformanceEntry) × (e : PerformanceEntry) × (b : List PerformanceEntry) × (es
            ≡ a ++ e ∷ b)
          × IsPeriod req a e
          × (get_request_entry req es ≡ some (some e))
          × (account_entry req bw es ≡ some (a ++ account req bw e ∷ b)))
unfolding get_request_entry account_entry
account_entry-IsPeriod req bw current older =
    elim (account_among-IsPeriod req bw (current ∷ older)) [
      | inl (g, l, k) ↦ inl (ap some g, l, ap some k)
      | inr (a, f, b, s, p, g, k) ↦ inr (a, f, b, s, p, ap some g, ap some k)
    ]

-- The record after a released request: it is counted in its period, and among the processed requests
-- where this is the current period; or its period is no longer on record, and nothing changes.
pub record CountedIn (req : Request) (bw : ℤ) (p p' : Performance) : Type 0 where
  pub len : p'.performance_info_len ≡ p.performance_info_len
  pub counted :
      (Later (fields req).dispatch_timestamp p.performance_info
        × (p'.performance_info ≡ p.performance_info)
        × (p'.agios_processed_reqnb ≡ p.agios_processed_reqnb))
      ⊎ ((a : List PerformanceEntry) × (e : PerformanceEntry) × (b : List PerformanceEntry)
          × (p.performance_info ≡ a ++ e ∷ b)
          × IsPeriod req a e
          × (p'.performance_info ≡ a ++ account req bw e ∷ b)
          × (p'.agios_processed_reqnb ≡ p.agios_processed_reqnb + (if length a == 0 then 1 else 0)))

is_current-Later :
    (req : Request) (es : List PerformanceEntry)
    → Later (fields req).dispatch_timestamp es
    → is_current req es ≡ false
is_current-Later req [] h = refl
is_current-Later req (e ∷ es) h = ground arith

is_current-IsPeriod :
    (req : Request) (a : List PerformanceEntry) (e : PerformanceEntry) (b : List PerformanceEntry)
    → IsPeriod req a e
    → is_current req (a ++ e ∷ b) ≡ (length a == 0)
is_current-IsPeriod req [] e b p = let began = p.began in ground arith
is_current-IsPeriod req (x ∷ a) e b p = let later = p.newest.0 in ground arith

pub account_request-CountedIn :
    (req : Request) (bw : ℤ) (p : Performance) (current : PerformanceEntry)
    (older : List PerformanceEntry)
    → p.performance_info ≡ current ∷ older
    → (p' : Performance) × (account_request req bw p ≡ some p') × CountedIn req bw p p'
unfolding account_request
account_request-CountedIn req bw p current older some_left =
    elim (account_entry-IsPeriod req bw current older) [
      | inl (_, l, k) ↦
          let none_later = subst (Later (fields req).dispatch_timestamp) (sym some_left) l in
          let old = is_current-Later req p.performance_info none_later in
          (
            _,
            ap (λ es. accounted req p (account_entry req bw es)) some_left ∙ ap (accounted req p) k,
            record { len = refl; counted = inl (none_later, sym some_left, rw old refl) },
          )
      | inr (a, e, b, s, period, _, k) ↦
          let now = ap (is_current req) (some_left ∙ s) ∙ is_current-IsPeriod req a e b period in
          (
            _,
            ap (λ es. accounted req p (account_entry req bw es)) some_left ∙ ap (accounted req p) k,
            record {
              len = refl;
              counted = inr (a, e, b, some_left ∙ s, period, refl, rw now (one (length a == 0)));
            },
          )
    ]
  where
    one :
        (b : Bool)
        → (if b then p.agios_processed_reqnb + 1 else p.agios_processed_reqnb)
          ≡ p.agios_processed_reqnb + (if b then 1 else 0)
    one true = refl
    one false = omega arith
