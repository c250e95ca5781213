-- ===== src/Mlf/Steps.antt =====
-- A step of MLF.c for one file, and the walk over a line: what has left the queues is what step 2 will
-- tell the user.
use forwarding_explorer_agio.Prelude.{
  ℕ, ◌+◌, ◌≤◌, ◌≡◌, refl, sym, ap, ◌∙◌, ◌⊎◌, inl, inr, Bool, true, Option, none, some, [], ◌∷◌,
  ◌++◌, arith, Bool-cases, ◌==◌,
}
use forwarding_explorer_agio.Prelude.Int.{pos, ◌-ℤ◌}
use forwarding_explorer_agio.Aggregation.Shape.{IsShaped, IsShaped-reqnb}
use forwarding_explorer_agio.Cancel.Queues.{AllShaped}
use forwarding_explorer_agio.Data.{Fields, Request, Requests, nil, cons, fields, File}
use forwarding_explorer_agio.Dispatch.FromShortest.{file-step1}
use forwarding_explorer_agio.Loops.Draining.{held, identifiers}
use forwarding_explorer_agio.Migration.ToTimeline.{in_file}
use forwarding_explorer_agio.Mlf.{
  Environment, Locals, Walk, delete_selected, note, process_selected, wait_on, mlf_step,
}
use forwarding_explorer_agio.Mlf.Selection.{plain, FileShaped}
use forwarding_explorer_agio.Mlf.Candidates.{
  Kept, Selected, FileShaped-SameLists, Chosen, mlf_select_request-Chosen,
}
use forwarding_explorer_agio.Process.{on_queue, user_ids, parts, process_requests_step1}
use forwarding_explorer_agio.Process.Delivery.{
  delivered, process-delivers, minus_zero, minus_minus, append-nil_ids,
}
use forwarding_explorer_agio.Requests.{append, total, total-cons, total-nil}
use forwarding_explorer_agio.Waiting.{update_waiting_time_counters, waiting_algorithms_postprocess}
use forwarding_explorer_agio.Waiting.Progress.{all_calls}
use forwarding_explorer_agio.Waiting.Lists.{
  SameLists, SameLists-trans, in_file-SameLists, dispatch_all-SameLists, postprocess-SameLists,
  all_calls-snoc,
}
use mathlib.Core.List.{append_assoc}
use mathlib.Core.Path.{subst}
use mathlib.Core.Option.{some-injective}

wait_on-SameLists : (now : ℕ) (f : File) (l : Locals) → SameLists (wait_on now f l).0 f
unfolding update_waiting_time_counters
wait_on-SameLists now f l = record { reads = ground arith; writes = ground arith }

processed-wait_on :
    (now : ℕ) (f : File) (l : Locals)
    → (wait_on now f l).1.processed_requests ≡ l.processed_requests
processed-wait_on now f l = ground arith

pub held-append : (a b : Requests) → held (append a b) ≡ held a + held b
held-append nil b = omega arith
held-append (cons r a) b = omega (arith, held-append a b)

pub identifiers-append :
    (a b : Requests) → identifiers (append a b) ≡ identifiers a ++ identifiers b
identifiers-append nil b = refl
identifiers-append (cons r a) b =
    ap (λ x. user_ids (parts r) ++ x) (identifiers-append a b)
    ∙ sym (append_assoc (user_ids (parts r)) (identifiers a) (identifiers b))

-- Between two points of a walk the requests `sent` have been taken on.
pub record Sent (b : Bool) (w w' : Walk) (sent : Requests) : Type 0 where
  pub told :
      delivered (all_calls b w'.info_list) ≡ delivered (all_calls b w.info_list) ++ identifiers sent
  pub reqnb : w'.counters.current_reqnb ≡ w.counters.current_reqnb -ℤ pos (held sent)
  pub processed :
      ((sent ≡ nil) × (w'.locals.processed_requests ≡ w.locals.processed_requests))
      ⊎ ((w'.locals.processed_requests ≡ true) × (1 ≤ held sent))

pub no-Sent :
    (b : Bool) (w : Walk) (l : Locals)
    → l.processed_requests ≡ w.locals.processed_requests
    → Sent b w (record w { locals = l }) nil
no-Sent b w l e = record {
  told = sym (append-nil_ids _);
  reqnb = minus_zero _;
  processed = inl (refl, e);
}

pub Sent-trans :
    (b : Bool) (w v u : Walk) (s t : Requests)
    → Sent b w v s
    → Sent b v u t
    → Sent b w u (append s t)
Sent-trans b w v u s t h k = record {
  told =
      k.told
      ∙ ap (λ x. x ++ identifiers t) h.told
      ∙ append_assoc (delivered (all_calls b w.info_list)) (identifiers s) (identifiers t)
      ∙ ap (λ x. delivered (all_calls b w.info_list) ++ x) (sym (identifiers-append s t));
  reqnb = minus_minus _ _ _ _ _ _ k.reqnb h.reqnb (held-append s t);
  processed = elim (k.processed) [
    | inr (e, some_more) ↦ inr (e, omega (arith, held-append s t))
    | inl (e, same) ↦ elim (h.processed) [
      | inr (e', some_more) ↦ inr (same ∙ e', omega (arith, held-append s t))
      | inl (e', same') ↦ inl (rw (e', e) refl, same ∙ same')
    ]
  ];
}

-- A request that is taken on from a file whose queues no longer hold it.
pub note-Sent :
    (b : Bool) (r : Request) (hash now : ℕ) (g : File) (w : Walk)
    → IsShaped r
    → (f' : File) × (w' : Walk) × (note r w (process_requests_step1 true r hash now g w.counters)
        ≡ some (f', w'))
      × Sent b w w' (cons r nil)
      × SameLists f' g
note-Sent b r hash now g w shape =
    let (s, run, told, _, _, reqnb, _, _) = process-delivers b r hash now g w.counters shape in
    (
      on_queue (fields r).type (waiting_algorithms_postprocess r) s.file,
      record {
        locals = record (w.locals) { processed_requests = true };
        counters = s.counters;
        info_list = w.info_list ++ s.info ∷ [];
      },
      ap (note r w) run,
      record {
        told =
            all_calls-snoc b w.info_list s.info
            ∙ ap (λ x. delivered (all_calls b w.info_list) ++ x)
                (told ∙ sym (append-nil_ids (user_ids (parts r))));
        reqnb = reqnb ∙ ap (λ n. w.counters.current_reqnb -ℤ pos n) (omega arith);
        processed = inr (refl, omega (arith, IsShaped-reqnb r shape));
      },
      SameLists-trans _ _ _ (postprocess-SameLists r (fields r).type s.file) (
          subst (λ x. SameLists x g) (sym (file-step1 r hash now g w.counters s run))
            (dispatch_all-SameLists (parts r) now (fields r).type g)),
    )

-- The file `f` after a step, `g`, from which `sent` have been taken on.
pub record Gave (f g : File) (sent : Requests) : Type 0 where
  pub carries : (w : Fields → ℕ) → in_file (plain w) g + total (plain w) sent ≡ in_file (plain w) f
  pub whole : AllShaped sent
  pub shaped : FileShaped g

Gave-none : (f g : File) → Kept f g → Gave f g nil
Gave-none f g k = record {
  carries = λ w. omega (arith, k.carries w, total-nil (plain w));
  whole = tt;
  shaped = k.shaped;
}

pub Gave-one :
    (quantum : ℕ) (f g h : File) (r : Request)
    → Selected quantum f g r
    → SameLists h (delete_selected quantum g)
    → Gave f h (cons r nil)
Gave-one quantum f g h r s same = record {
  carries = λ w. omega (
    arith,
    s.carries w,
    in_file-SameLists (plain w) h (delete_selected quantum g) same,
    total-cons (plain w) r nil,
    total-nil (plain w),
  );
  whole = (s.shape, tt);
  shaped = FileShaped-SameLists h (delete_selected quantum g) same s.shaped;
}

-- What a step comes to.
abbrev pub Stepped : Bool → File → Walk → Option (File × Walk) → Type 0
Stepped b f w o =
    (g : File) × (w' : Walk) × (sent : Requests) × (o ≡ some (g, w'))
    × Sent b w w' sent
    × Gave f g sent

process_selected-Stepped :
    (b : Bool) (quantum hash now : ℕ) (f : File) (w : Walk) (c : Option Request × File)
    → Chosen quantum f c
    → Stepped b f w (process_selected quantum hash now w c)
process_selected-Stepped b quantum hash now f w (none, g) (inl (e, k)) =
    (g, w, nil, refl, no-Sent b w w.locals refl, Gave-none f g k)
process_selected-Stepped b quantum hash now f w (none, g) (inr (r, e, s, k)) = absurd (cc)
process_selected-Stepped b quantum hash now f w (some x, g) (inl (e, k)) = absurd (cc)
process_selected-Stepped b quantum hash now f w (some x, g) (inr (r, e, s, k)) =
    let sel = subst (Selected quantum f g) (some-injective _ _ (sym e)) s in
    let (f', w', run, sent, same) =
      note-Sent b x hash now (delete_selected quantum g) w sel.shape in
    elim (Bool-cases (g.waiting_time == 0)) [
      | inl go ↦ (f', w', cons x nil, rw go run, sent, Gave-one quantum f g f' x sel same)
      | inr waits ↦ (g, w, nil, rw waits refl, no-Sent b w w.locals refl, Gave-none f g k)
    ]

SameLists-Stepped :
    (b : Bool) (f g : File) (w v : Walk) (o : Option (File × Walk))
    → SameLists g f
    → Sent b w v nil
    → Stepped b g v o
    → Stepped b f w o
SameLists-Stepped b f g w v o same none_sent (h, w', sent, run, s, gave) = (
  h,
  w',
  sent,
  run,
  Sent-trans b w v w' nil sent none_sent s,
  record {
    carries = λ m. gave.carries m ∙ in_file-SameLists (plain m) g f same;
    whole = gave.whole;
    shaped = gave.shaped;
  },
)

pub mlf_step-Stepped :
    (e : Environment) (i k hash : ℕ) (f : File) (w : Walk)
    → FileShaped f
    → Stepped e.has_list_cb f w (mlf_step e i k hash f w)
unfolding mlf_step
mlf_step-Stepped e i k hash f w shaped =
    let u = wait_on (e.now_waited i k) f w.locals in
    let same = wait_on-SameLists (e.now_waited i k) f w.locals in
    SameLists-Stepped e.has_list_cb f u.0 w (record w { locals = u.1 }) _ same
      (no-Sent e.has_list_cb w u.1 (processed-wait_on (e.now_waited i k) f w.locals))
      (process_selected-Stepped e.has_list_cb e.config_mlf_quantum hash (e.now_sent i k) u.0
        (record w { locals = u.1 }) _
        (mlf_select_request-Chosen e.config_waiting_time e.config_mlf_quantum (e.now_checked i k)
          u.0 (FileShaped-SameLists u.0 f same shaped)))
