-- ===== src/Mlf/Lines.antt =====
-- A walk of MLF.c over a line of the hashtable, and a round of its loop.
use forwarding_explorer_agio.Prelude.{
  ℕ, zero, suc, ◌+◌, ◌≤◌, ◌≡◌, refl, ap, ◌∙◌, ◌⊎◌, inl, inr, Bool, true, false, Option, some, List,
  [], ◌∷◌, arith, Bool-cases, leb, get_or, set,
}
use forwarding_explorer_agio.Prelude.Int.{pos, ltb_ℤ, ◌-ℤ◌}
use forwarding_explorer_agio.Cancel.Queues.{AllShaped, append-AllShaped}
use forwarding_explorer_agio.Data.{Fields, Requests, nil, File}
use forwarding_explorer_agio.Loops.Draining.{held, identifiers}
use forwarding_explorer_agio.Migration.ToTimeline.{in_line, in_lines, LineShaped, LinesShaped}
use forwarding_explorer_agio.Mlf.{
  Mlf, Environment, Locals, Walk, Round, with_rest, next_file, mlf_files, sent, locked_round,
  mlf_round, max_mlf_lock_tries,
}
use forwarding_explorer_agio.Mlf.Selection.{plain}
use forwarding_explorer_agio.Mlf.Steps.{Sent, no-Sent, Sent-trans, mlf_step-Stepped}
use forwarding_explorer_agio.Process.{ProcessingInfo}
use forwarding_explorer_agio.Process.Delivery.{delivered, minus_zero}
use forwarding_explorer_agio.Requests.{append, total, total-nil, total-append}
use forwarding_explorer_agio.State.{Agios, line}
use forwarding_explorer_agio.Waiting.{step2_for_all, call_step2_for_info_list}
use forwarding_explorer_agio.Waiting.Progress.{all_calls}

-- A line after a walk over it, `gs`, from which `sent` have been taken on.
pub record LineGave (fs gs : List File) (sent : Requests) : Type 0 where
  pub carries :
      (w : Fields → ℕ) → in_line (plain w) gs + total (plain w) sent ≡ in_line (plain w) fs
  pub whole : AllShaped sent
  pub shaped : LineShaped gs

pub mlf_files-LineGave :
    (e : Environment) (i k hash : ℕ) (fs : List File) (w : Walk)
    → LineShaped fs
    → (gs : List File) × (w' : Walk) × (sent : Requests) × (mlf_files e i k hash fs w
        ≡ some (gs, w'))
      × Sent e.has_list_cb w w' sent
      × LineGave fs gs sent
unfolding mlf_files
mlf_files-LineGave e i k hash [] w shaped = (
  [],
  w,
  nil,
  refl,
  no-Sent e.has_list_cb w w.locals refl,
  record { carries = λ v. omega (arith, total-nil (plain v)); whole = tt; shaped = tt },
)
mlf_files-LineGave e i k hash (f ∷ fs) w (sr, sw, rest) =
    let (g, v, s, run, one, gave) = mlf_step-Stepped e i k hash f w (sr, sw) in
    let (gs, u, t, runs, others, gaves) = mlf_files-LineGave e i (suc k) hash fs v rest in
    (
      g ∷ gs,
      u,
      append s t,
      ap (λ o. next_file o (λ v. mlf_files e i (suc k) hash fs v)) run ∙ ap (with_rest g) runs,
      Sent-trans e.has_list_cb w v u s t one others,
      record {
        carries = λ m. omega (arith, gave.carries m, gaves.carries m, total-append (plain m) s t);
        whole = append-AllShaped s t gave.whole gaves.whole;
        shaped = (gave.shaped.0, gave.shaped.1, gaves.shaped);
      },
    )

-- No call of step 2 asks to stop.
abbrev pub Quiet : List Bool → Type 0
Quiet [] = Unit {0}
Quiet (b ∷ bs) = (b ≡ false) × Quiet bs

step2_for_all-Quiet :
    (b : Bool) (is : List ProcessingInfo) (stops : List Bool)
    → Quiet stops
    → step2_for_all b false is stops ≡ (all_calls b is, false)
unfolding step2_for_all
step2_for_all-Quiet b [] stops q = refl
step2_for_all-Quiet b (i ∷ is) [] q = rw (step2_for_all-Quiet b is [] tt) refl
step2_for_all-Quiet b (i ∷ is) (c ∷ stops) q = rw (q.0, step2_for_all-Quiet b is stops q.1) refl

pub call_step2_for_info_list-Quiet :
    (b : Bool) (is : List ProcessingInfo) (stops : List Bool)
    → Quiet stops
    → call_step2_for_info_list b is stops ≡ (all_calls b is, false)
unfolding call_step2_for_info_list
call_step2_for_info_list-Quiet b is stops q = step2_for_all-Quiet b is stops q

pub in_lines-set :
    (w : Fields → ℕ) (ls : List (List File)) (i : ℕ) (gs : List File) (n : ℕ)
    → in_line w gs + n ≡ in_line w (get_or ls i [])
    → in_lines w (set ls i gs) + n ≡ in_lines w ls
in_lines-set w [] i gs n e = omega arith
in_lines-set w (l ∷ ls) zero gs n e = omega arith
in_lines-set w (l ∷ ls) (suc i) gs n e = omega (arith, in_lines-set w ls i gs n e)

pub set-LinesShaped :
    (ls : List (List File)) (i : ℕ) (gs : List File)
    → LineShaped gs
    → LinesShaped ls
    → LinesShaped (set ls i gs)
set-LinesShaped [] i gs h k = tt
set-LinesShaped (l ∷ ls) zero gs h k = (h, k.1)
set-LinesShaped (l ∷ ls) (suc i) gs h k = (k.0, set-LinesShaped ls i gs h k.1)

pub get_or-LineShaped :
    (ls : List (List File)) (i : ℕ) → LinesShaped ls → LineShaped (get_or ls i [])
get_or-LineShaped [] i k = tt
get_or-LineShaped (l ∷ ls) zero k = k.0
get_or-LineShaped (l ∷ ls) (suc i) k = get_or-LineShaped ls i k.1

-- State `b` is state `a` after `sent` have left its hashtable.
pub record Left (a b : Agios) (sent : Requests) : Type 0 where
  pub carries :
      (w : Fields → ℕ)
      → in_lines (plain w) b.hashlist + total (plain w) sent ≡ in_lines (plain w) a.hashlist
  pub reqnb : b.counters.current_reqnb ≡ a.counters.current_reqnb -ℤ pos (held sent)
  pub whole : AllShaped sent
  pub shaped : LinesShaped b.hashlist

-- A round that starts with the local variables `l` at the line `hash`.
pub record Rounded (stops : List Bool) (hash : ℕ) (l : Locals) (a : Agios) (r : Round)
    (sent : Requests) : Type 0 where
  pub left : Left a r.agios sent
  pub hash_kept : r.mlf.mlf_current_hash ≡ hash
  pub processed :
      ((sent ≡ nil) × (r.locals.processed_requests ≡ l.processed_requests))
      ⊎ ((r.locals.processed_requests ≡ true) × (1 ≤ held sent))
  pub told : Quiet stops → (r.stop ≡ false) × (delivered r.calls ≡ identifiers sent)

abbrev pub Rounds : Environment → ℕ → ℕ → Locals → Agios → Option Round → Type 0
Rounds e i hash l a o =
    (r : Round) × (taken : Requests) × (o ≡ some r) × Rounded (e.stops i) hash l a r taken

sent-Rounded :
    (e : Environment) (i : ℕ) (l : Locals) (m : Mlf) (a : Agios) (o : Option (List File × Walk))
    (gs : List File) (w : Walk) (taken : Requests)
    → o ≡ some (gs, w)
    → LinesShaped a.hashlist
    → Sent e.has_list_cb (record { locals = l; counters = a.counters; info_list = [] }) w taken
    → LineGave (line m.mlf_current_hash a) gs taken
    → Rounds e i m.mlf_current_hash l a (sent e i m.mlf_current_hash m a o)
sent-Rounded e i l m a o gs w taken run shaped s gave = (
  _,
  taken,
  ap (sent e i m.mlf_current_hash m a) run,
  record {
    left = record {
      carries = λ v.
          in_lines-set (plain v) a.hashlist m.mlf_current_hash gs (total (plain v) taken)
            (gave.carries v);
      reqnb = s.reqnb;
      whole = gave.whole;
      shaped = set-LinesShaped a.hashlist m.mlf_current_hash gs gave.shaped shaped;
    };
    hash_kept = refl;
    processed = s.processed;
    told = λ q.
        let c = call_step2_for_info_list-Quiet e.has_list_cb w.info_list (e.stops i) q in
        (ap (λ x. x.1) c, ap (λ x. delivered x.0) c ∙ s.told);
  },
)

locked_round-Rounds :
    (e : Environment) (i : ℕ) (l : Locals) (m : Mlf) (a : Agios)
    → LinesShaped a.hashlist
    → Rounds e i m.mlf_current_hash l a (locked_round e i l m a)
unfolding locked_round
locked_round-Rounds e i l m a shaped =
    let hash = m.mlf_current_hash in
    let m' : Mlf = record m { mlf_lock_tries = set m.mlf_lock_tries hash 0 } in
    let w : Walk = record { locals = l; counters = a.counters; info_list = [] } in
    let here = get_or-LineShaped a.hashlist hash shaped in
    let (gs, w', taken, run, s, gave) = mlf_files-LineGave e i 0 hash (line hash a) w here in
    elim (Bool-cases (ltb_ℤ (pos 0) (get_or a.counters.hashlist_reqcounter hash (pos 0)))) [
      | inl some_here ↦ sent-Rounded e i l m' a _ gs w' taken (rw some_here run) shaped s gave
      | inr none_here ↦
          sent-Rounded e i l m' a _ (line hash a) w nil (rw none_here refl) shaped
            (no-Sent e.has_list_cb w l refl)
            (record {
              carries = λ v. omega (arith, total-nil (plain v));
              whole = tt;
              shaped = here;
            })
    ]

pub mlf_round-Rounds :
    (e : Environment) (i : ℕ) (l : Locals) (m : Mlf) (a : Agios)
    → LinesShaped a.hashlist
    → Rounds e i m.mlf_current_hash l a (mlf_round e i l m a)
unfolding mlf_round
mlf_round-Rounds e i l m a shaped =
    let locked = locked_round-Rounds e i l m a shaped in
    let tries = get_or m.mlf_lock_tries m.mlf_current_hash 0 in
    elim (Bool-cases (e.is_free i)) [
      | inl free ↦ rw free locked
      | inr held_by_other ↦ elim (Bool-cases (leb max_mlf_lock_tries tries)) [
        | inl waits ↦ rw (held_by_other, waits) locked
        | inr passed ↦
            rw (held_by_other, passed)
              (
                _,
                nil,
                refl,
                record {
                  left = record {
                    carries = λ v. omega (arith, total-nil (plain v));
                    reqnb = minus_zero a.counters.current_reqnb;
                    whole = tt;
                    shaped = shaped;
                  };
                  hash_kept = refl;
                  processed = inl (refl, refl);
                  told = λ q. (refl, refl);
                },
              )
      ]
    ]
