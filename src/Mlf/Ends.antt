-- ===== src/Mlf/Ends.antt =====
-- The loop of MLF.c ends, whatever other threads hold, and it loses no request.
use forwarding_explorer_agio.Prelude.{
  ℕ, zero, suc, ◌*◌, ◌-◌, ◌<◌, ◌≡◌, refl, sym, ap, ◌∙◌, inl, inr, Bool, true, false, List, [], ◌++◌,
  arith, Bool-cases,
}
use forwarding_explorer_agio.Prelude.Int.{pos, pos_part, ltb_ℤ, ◌-ℤ◌}
use forwarding_explorer_agio.Cancel.Queues.{append-AllShaped}
use forwarding_explorer_agio.Data.{Requests, nil}
use forwarding_explorer_agio.Hash.{agios_hash_entries}
use forwarding_explorer_agio.Loops.Draining.{held, identifiers, delivered-++}
use forwarding_explorer_agio.Migration.ToTimeline.{LinesShaped}
use forwarding_explorer_agio.Mlf.{
  Mlf, Environment, Locals, Round, MlfLoop, returned, after_calls, end_turn, move_on, next_line,
  rounds, mlf,
}
use forwarding_explorer_agio.Mlf.Selection.{plain}
use forwarding_explorer_agio.Mlf.Steps.{held-append, identifiers-append}
use forwarding_explorer_agio.Mlf.Turns.{
  IsBefore, next_line-IsBefore, rounds_left, Goes, rounds_left-next, rounds_left-turn, fewer,
  zero_or_more, positive,
}
use forwarding_explorer_agio.Mlf.Lines.{Quiet, Left, Rounded, mlf_round-Rounds}
use forwarding_explorer_agio.Process.{Callback}
use forwarding_explorer_agio.Process.Delivery.{delivered, minus_zero, minus_minus}
use forwarding_explorer_agio.Requests.{append, total-nil, total-append}
use forwarding_explorer_agio.State.{Agios}
use mathlib.Core.Path.{subst}

Goes-Rounded :
    (stops : List Bool) (hash k : ℕ) (l : Locals) (a : Agios) (r : Round) (sent : Requests)
    → pos_part a.counters.current_reqnb ≡ suc k
    → Rounded stops hash l a r sent
    → Goes l.processed_requests
        (suc k)
        r.locals.processed_requests
        (pos_part r.agios.counters.current_reqnb)
Goes-Rounded stops hash k l a r sent e h =
    let left = ap pos_part h.left.reqnb in
    elim (h.processed) [
      | inl (empty, same) ↦ inl (
        same,
        left
            ∙ ap (λ s. pos_part (a.counters.current_reqnb -ℤ pos (held s))) empty
            ∙ sym (ap pos_part (minus_zero a.counters.current_reqnb))
            ∙ e,
      )
      | inr (set_now, some_sent) ↦
          inr (set_now, rw left (fewer a.counters.current_reqnb (held sent) k e some_sent))
    ]

-- The loop returned, with state `b` after `sent` have left the hashtable of state `a`.
record Ran (AlwaysQuiet : Type 0) (a : Agios) (loop : MlfLoop) : Type 0 where
  mlf : Mlf
  agios : Agios
  calls : List Callback
  waiting_time : ℕ
  sent : Requests
  returns : loop ≡ returned mlf agios calls waiting_time
  left : Left a agios sent
  told : AlwaysQuiet → delivered calls ≡ identifiers sent

no-Left : (a : Agios) → LinesShaped a.hashlist → Left a a nil
no-Left a shaped = record {
  carries = λ w. omega (arith, total-nil (plain w));
  reqnb = minus_zero a.counters.current_reqnb;
  whole = tt;
  shaped = shaped;
}

Left-trans : (a b c : Agios) (s t : Requests) → Left a b s → Left b c t → Left a c (append s t)
Left-trans a b c s t h k = record {
  carries = λ w. omega (arith, h.carries w, k.carries w, total-append (plain w) s t);
  reqnb = minus_minus _ _ _ _ _ _ k.reqnb h.reqnb (held-append s t);
  whole = append-AllShaped s t h.whole k.whole;
  shaped = k.shaped;
}

module _ (e : Environment) where
  -- No call of step 2 asks to stop in any round.
  abbrev AlwaysQuiet : Type 0
  AlwaysQuiet = (i : ℕ) → Quiet (e.stops i)

  -- The rest of the loop after a round that does not stop.
  after-Ran :
      (a : Agios) (r : Round) (sent : Requests) (loop : MlfLoop)
      → Left a r.agios sent
      → (AlwaysQuiet → delivered r.calls ≡ identifiers sent)
      → Ran AlwaysQuiet r.agios loop
      → Ran AlwaysQuiet a (after_calls r.calls loop)
  after-Ran a r sent loop left told h = record {
    mlf = h.mlf;
    agios = h.agios;
    calls = r.calls ++ h.calls;
    waiting_time = h.waiting_time;
    sent = append sent h.sent;
    returns = ap (after_calls r.calls) h.returns;
    left = Left-trans a r.agios h.agios sent h.sent left h.left;
    told = λ q.
        delivered-++ r.calls h.calls
        ∙ ap (λ x. x ++ delivered h.calls) (told q)
        ∙ ap (λ x. identifiers sent ++ x) (h.told q)
        ∙ sym (identifiers-append sent h.sent);
  }

  at_once :
      (m : Mlf) (a : Agios) (t : ℕ) → LinesShaped a.hashlist → Ran AlwaysQuiet a (returned m a [] t)
  at_once m a t shaped = record {
    mlf = m;
    agios = a;
    calls = [];
    waiting_time = t;
    sent = nil;
    returns = refl;
    left = no-Left a shaped;
    told = λ q. refl;
  }

  stopped :
      (i start hash : ℕ) (l : Locals) (a : Agios) (r : Round) (sent : Requests)
      (k : Locals → Mlf → Agios → MlfLoop)
      → Rounded (e.stops i) hash l a r sent
      → r.stop ≡ true
      → Ran AlwaysQuiet a (move_on start true r k)
  stopped i start hash l a r sent k h stop = record {
    mlf = r.mlf;
    agios = r.agios;
    calls = r.calls;
    waiting_time = 0;
    sent = sent;
    returns = refl;
    left = h.left;
    told = λ q. (h.told (q i)).1;
  }

  abbrev Ends : ℕ → Type 0
  Ends n =
      (i start d : ℕ) (l : Locals) (m : Mlf) (a : Agios)
      → IsBefore start m.mlf_current_hash d
      → LinesShaped a.hashlist
      → rounds_left d l.processed_requests (pos_part a.counters.current_reqnb) < n
      → Ran AlwaysQuiet a (rounds n i start e l m a)

  moved :
      (n i start d k : ℕ) (l : Locals) (m : Mlf) (a : Agios) (r : Round) (sent : Requests)
      → Ends n
      → IsBefore start m.mlf_current_hash d
      → pos_part a.counters.current_reqnb ≡ suc k
      → rounds_left d l.processed_requests (suc k) < suc n
      → Rounded (e.stops i) m.mlf_current_hash l a r sent
      → Ran AlwaysQuiet a (move_on start false r (λ l' m' b. rounds n (suc i) start e l' m' b))
  moved n i start d k l m a r sent ih before some_left fuel h =
      let hash = next_line r.mlf.mlf_current_hash in
      let m' : Mlf = record (r.mlf) { mlf_current_hash = hash } in
      let goes = Goes-Rounded (e.stops i) m.mlf_current_hash k l a r sent some_left h in
      let k' = pos_part r.agios.counters.current_reqnb in
      let rest : Locals → Mlf → Agios → MlfLoop = λ l' m'' b. rounds n (suc i) start e l' m'' b in
      let here = subst (λ c. IsBefore start c d) (sym h.hash_kept) before in
      after-Ran a r sent _ h.left (λ q. (h.told (q i)).1)
        (elim (next_line-IsBefore start r.mlf.mlf_current_hash d here) [
          | inr (same, next, two) ↦ rw same (
              ih (suc i) start (d - 1) r.locals m' r.agios next h.left.shaped (
                rounds_left-next n d k l.processed_requests k' r.locals.processed_requests fuel two
                  goes))
          | inl (last, one, next) ↦ rw last (elim (Bool-cases r.locals.processed_requests) [
            | inr nothing ↦
                subst (λ b. Ran AlwaysQuiet r.agios (end_turn true b r.locals m' r.agios rest))
                  (sym nothing) (at_once m' r.agios r.locals.shortest_waiting_time h.left.shaped)
            | inl something ↦
                subst (λ b. Ran AlwaysQuiet r.agios (end_turn true b r.locals m' r.agios rest))
                  (sym something)
                  (ih (suc i) start 64 (record (r.locals) { processed_requests = false }) m' r.agios
                    next h.left.shaped
                    (rounds_left-turn n d k l.processed_requests k' r.locals.processed_requests fuel
                      one goes something))
          ])
        ])

  rounds-Ran : (n : ℕ) → Ends n
  unfolding rounds
  rounds-Ran zero i start d l m a before shaped fuel = absurd (omega arith)
  rounds-Ran (suc n) i start d l m a before shaped fuel =
      let (r, sent, run, h) = mlf_round-Rounds e i l m a shaped in
      let rest : Locals → Mlf → Agios → MlfLoop = λ l' m' b. rounds n (suc i) start e l' m' b in
      elim (zero_or_more (pos_part a.counters.current_reqnb)) [
        | inl none_left ↦
            let over : ltb_ℤ (pos 0) a.counters.current_reqnb ≡ false = ground arith in
            rw over (at_once m a 0 shaped)
        | inr (k, some_left) ↦
            let more : ltb_ℤ (pos 0) a.counters.current_reqnb ≡ true =
              positive a.counters.current_reqnb k some_left in
            let enough = subst (λ x. rounds_left d l.processed_requests x < suc n) some_left fuel in
            rw (more, run)
              (elim (Bool-cases r.stop) [
                | inl stop ↦ rw stop (stopped i start m.mlf_current_hash l a r sent rest h stop)
                | inr on ↦
                    rw on
                      (moved n i start d k l m a r sent (rounds-Ran n) before some_left enough h)
              ])
      ]

-- The loop of MLF returned: `sent` have left the hashtable, and nothing else has changed in what it
-- holds.
pub record Returned (a : Agios) (loop : MlfLoop) : Type 0 where
  pub mlf : Mlf
  pub agios : Agios
  pub calls : List Callback
  pub waiting_time : ℕ
  pub sent : Requests
  pub returns : loop ≡ returned mlf agios calls waiting_time
  pub left : Left a agios sent

abbrev returned_of :
    {AlwaysQuiet : Type 0} {a : Agios} {loop : MlfLoop} → Ran AlwaysQuiet a loop → Returned a loop
returned_of r = record {
  mlf = r.mlf;
  agios = r.agios;
  calls = r.calls;
  waiting_time = r.waiting_time;
  sent = r.sent;
  returns = r.returns;
  left = r.left;
}

mlf-Ran :
    (n : ℕ) (e : Environment) (m : Mlf) (a : Agios)
    → m.mlf_current_hash < agios_hash_entries
    → LinesShaped a.hashlist
    → 64 * pos_part a.counters.current_reqnb < n
    → Ran (AlwaysQuiet e) a (mlf n e m a)
unfolding mlf
mlf-Ran n e m a below shaped fuel =
    rounds-Ran e n 0 m.mlf_current_hash 64 _ m a
      (record {
        below = below;
        start_below = below;
        some_left = omega arith;
        most = omega arith;
        meets = inr refl;
      })
      shaped (first_turn (pos_part a.counters.current_reqnb) fuel)
  where
    first_turn : (k : ℕ) → 64 * k < n → rounds_left 64 false k < n
    first_turn zero h = omega arith
    first_turn (suc k) h = omega arith

-- The loop of MLF terminates, whichever lines other threads hold and whatever step 2 answers: from a
-- state whose queues hold well-formed requests, and a position in the hashtable, it returns after at
-- most 64 rounds for each request that the counter counts. What has left the hashtable then is what
-- the counter has gone down by, and all other requests are still there.
pub mlf-Returned :
    (n : ℕ) (e : Environment) (m : Mlf) (a : Agios)
    → m.mlf_current_hash < agios_hash_entries
    → LinesShaped a.hashlist
    → 64 * pos_part a.counters.current_reqnb < n
    → Returned a (mlf n e m a)
mlf-Returned n e m a below shaped fuel = returned_of (mlf-Ran n e m a below shaped fuel)

-- A run of the loop of MLF in which no call of step 2 asks to stop, from a state whose queues hold
-- well-formed requests, with 64 rounds for each request that the counter counts: it returns, and it has
-- told the user exactly the requests that have left the hashtable, each once. The order among them is not
-- stated.
pub mlf-delivered :
    (n : ℕ) (e : Environment) (m : Mlf) (a : Agios)
    → m.mlf_current_hash < agios_hash_entries
    → LinesShaped a.hashlist
    → 64 * pos_part a.counters.current_reqnb < n
    → ((i : ℕ) → Quiet (e.stops i))
    → (r : Returned a (mlf n e m a)) × (delivered (r.calls) ≡ identifiers (r.sent))
mlf-delivered n e m a below shaped fuel go_on =
    let r = mlf-Ran n e m a below shaped fuel in (returned_of r, r.told go_on)
