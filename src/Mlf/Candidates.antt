-- ===== src/Mlf/Candidates.antt =====
-- What `MLF_select_request` does to the queues of a file: they hold the same requests, and the one
-- that it returns is the one that `delete_selected` takes.
use forwarding_explorer_agio.Prelude.{
  ℕ, ◌+◌, ◌≡◌, refl, sym, ap, ◌∙◌, ◌⊎◌, inl, inr, Bool, true, false, Option, none, some, arith,
  if◌then◌else◌,
}
use forwarding_explorer_agio.Aggregation.Shape.{IsShaped}
use forwarding_explorer_agio.Data.{Fields, Request, Requests, nil, cons, File}
use forwarding_explorer_agio.Migration.ToTimeline.{in_file}
use forwarding_explorer_agio.Mlf.{take_covered, without_selected, delete_selected}
use forwarding_explorer_agio.Quanta.{apply_mlf_onlist, mlf_candidate, mlf_select_request, checked}
use forwarding_explorer_agio.Requests.{total, weight, is_empty}
use forwarding_explorer_agio.Waiting.{check_selection}
use forwarding_explorer_agio.Waiting.Lists.{SameLists, in_file-SameLists, check_selection-SameLists}
use forwarding_explorer_agio.Mlf.Selection.{
  plain, FileShaped, Without, Selects, apply-Passed, apply-Selects,
}
use mathlib.Core.Path.{subst}
use mathlib.Core.Option.{some-injective}

-- The queues of a file after passes over them.
pub record Kept (f g : File) : Type 0 where
  pub carries : (w : Fields → ℕ) → in_file (plain w) g ≡ in_file (plain w) f
  pub shaped : FileShaped g

-- The same, where the next `delete_selected` takes request `r`.
pub record Selected (quantum : ℕ) (f g : File) (r : Request) : Type 0 where
  pub carries :
      (w : Fields → ℕ)
      → in_file (plain w) (delete_selected quantum g) + weight (plain w) r ≡ in_file (plain w) f
  pub shape : IsShaped r
  pub shaped : FileShaped (delete_selected quantum g)

delete-SameLists :
    (quantum : ℕ) (f g : File)
    → SameLists f g
    → SameLists (delete_selected quantum f) (delete_selected quantum g)
unfolding delete_selected
delete-SameLists quantum f g s =
    let a = take_covered quantum g.read_queue.list in
    let b = take_covered quantum g.write_queue.list in
    subst (λ x. SameLists x (delete_selected quantum g))
      (sym (
        ap
          (λ q.
            without_selected f (take_covered quantum q) (take_covered quantum f.write_queue.list))
          s.reads
        ∙ ap (λ q. without_selected f a (take_covered quantum q)) s.writes))
      (same a b)
  where
    same : (a b : Option Requests) → SameLists (without_selected f a b) (without_selected g a b)
    same (some q) b = record { reads = refl; writes = s.writes }
    same none (some q) = record { reads = s.reads; writes = refl }
    same none none = s

pub FileShaped-SameLists : (f g : File) → SameLists f g → FileShaped g → FileShaped f
FileShaped-SameLists f g s h = rw (s.reads, s.writes) h

pub Kept-SameLists : (f g h : File) → SameLists h g → Kept f g → Kept f h
Kept-SameLists f g h s k = record {
  carries = λ w. in_file-SameLists (plain w) h g s ∙ k.carries w;
  shaped = FileShaped-SameLists h g s k.shaped;
}

Selected-SameLists :
    (quantum : ℕ) (f g h : File) (r : Request)
    → SameLists h g
    → Selected quantum f g r
    → Selected quantum f h r
Selected-SameLists quantum f g h r s k =
    let d = delete-SameLists quantum h g s in
    record {
      carries =
          λ w. ap (λ n. n + weight (plain w) r) (in_file-SameLists (plain w) _ _ d) ∙ k.carries w;
      shape = k.shape;
      shaped = FileShaped-SameLists _ _ d k.shaped;
    }

module _ (quantum : ℕ) (f : File) (shaped : FileShaped f) where
  abbrev reads : Requests
  reads = (apply_mlf_onlist quantum f.read_queue.list).list

  abbrev writes : Requests
  writes = (apply_mlf_onlist quantum f.write_queue.list).list

  read-Selected :
      (g : File) (r : Request) (q : Requests)
      → (g.read_queue.list ≡ reads) × (g.write_queue.list ≡ f.write_queue.list)
      → take_covered quantum reads ≡ some q
      → Without reads r q
      → Selected quantum f g r × Kept f g
  unfolding delete_selected
  read-Selected g r q (er, ew) t h =
      let p = apply-Passed quantum f.read_queue.list shaped.0 in
      let d : delete_selected quantum g ≡ without_selected g (some q) none =
        ap (λ o. without_selected g o (take_covered quantum g.write_queue.list))
          (ap (take_covered quantum) er ∙ t) in
      (
        record {
          carries = λ w.
              omega (
                arith,
                ap (in_file (plain w)) d,
                h.carries w,
                p.carries w,
                ap (total (plain w)) ew,
              );
          shape = h.shape;
          shaped = subst FileShaped (sym d) (h.shaped, rw ew shaped.1);
        },
        record {
          carries =
              λ w. omega (arith, p.carries w, ap (total (plain w)) er, ap (total (plain w)) ew);
          shaped = (rw er p.shaped, rw ew shaped.1);
        },
      )

  both-Kept : (g : File) → (g.read_queue.list ≡ reads) × (g.write_queue.list ≡ writes) → Kept f g
  both-Kept g (er, ew) =
      let p = apply-Passed quantum f.read_queue.list shaped.0 in
      let p' = apply-Passed quantum f.write_queue.list shaped.1 in
      record {
        carries = λ w.
            omega
              (arith, p.carries w, p'.carries w, ap (total (plain w)) er, ap (total (plain w)) ew);
        shaped = (rw er p.shaped, rw ew p'.shaped);
      }

  write-Selected :
      (g : File) (r : Request) (q : Requests)
      → (g.read_queue.list ≡ reads) × (g.write_queue.list ≡ writes)
      → take_covered quantum reads ≡ none
      → take_covered quantum writes ≡ some q
      → Without writes r q
      → Selected quantum f g r
  unfolding delete_selected
  write-Selected g r q (er, ew) n t h =
      let p = apply-Passed quantum f.read_queue.list shaped.0 in
      let p' = apply-Passed quantum f.write_queue.list shaped.1 in
      let d : delete_selected quantum g ≡ without_selected g none (some q) =
        ap (λ o. without_selected g o (take_covered quantum g.write_queue.list))
          (ap (take_covered quantum) er ∙ n)
        ∙ ap (without_selected g none) (ap (take_covered quantum) ew ∙ t) in
      record {
        carries = λ w. omega (
          arith,
          ap (in_file (plain w)) d,
          h.carries w,
          p.carries w,
          p'.carries w,
          ap (total (plain w)) er,
        );
        shape = h.shape;
        shaped = subst FileShaped (sym d) (rw er p.shaped, h.shaped);
      }

  -- Whether the passes have selected a request.
  abbrev Candidates : Option Request × File → Type 0
  Candidates c =
      ((c.0 ≡ none) × Kept f c.1)
      ⊎ ((r : Request) × (c.0 ≡ some r) × Selected quantum f c.1 r × Kept f c.1)

  empty-apply : (q : Requests) → is_empty q ≡ true → q ≡ (apply_mlf_onlist quantum q).list
  unfolding apply_mlf_onlist
  empty-apply nil e = refl
  empty-apply (cons r q) e = cc

  reads-lists :
      (b : Bool)
      → is_empty f.read_queue.list ≡ b
      → let g = if b then f else record f { read_queue = record (f.read_queue) { list = reads } } in
        (g.read_queue.list ≡ reads) × (g.write_queue.list ≡ f.write_queue.list)
  reads-lists true e = (empty-apply f.read_queue.list e, refl)
  reads-lists false e = (refl, refl)

  writes-lists :
      (g : File) (b : Bool)
      → is_empty f.write_queue.list ≡ b
      → (g.read_queue.list ≡ reads) × (g.write_queue.list ≡ f.write_queue.list)
      → let h =
          if b then g else record g { write_queue = record (f.write_queue) { list = writes } } in
        (h.read_queue.list ≡ reads) × (h.write_queue.list ≡ writes)
  writes-lists g true e s = (s.0, s.1 ∙ empty-apply f.write_queue.list e)
  writes-lists g false e s = (s.0, refl)

  pick :
      (g h : File) (o w : Option Request)
      → (g.read_queue.list ≡ reads) × (g.write_queue.list ≡ f.write_queue.list)
      → (h.read_queue.list ≡ reads) × (h.write_queue.list ≡ writes)
      → Selects quantum reads o
      → Selects quantum writes w
      → Candidates (elim o [ some req ↦ (some req, g) | none ↦ (w, h) ])
  pick g h (some x) w lr lw (inl (e, n)) s = absurd (cc)
  pick g h (some x) w lr lw (inr (r, q, e, t, k)) s =
      let (sel, kept) = read-Selected g r q lr t k in inr (r, e, sel, kept)
  pick g h none w lr lw (inr (r, q, e, t, k)) s = absurd (cc)
  pick g h none w lr lw (inl (e, n)) (inr (r, q, e', t, k)) =
      inr (r, e', write-Selected h r q lw n t k, both-Kept h lw)
  pick g h none w lr lw (inl (e, n)) (inl (e', n')) = inl (e', both-Kept h lw)

  mlf_candidate-Candidates : Candidates (mlf_candidate quantum f)
  unfolding mlf_candidate
  mlf_candidate-Candidates =
      let lr = reads-lists (is_empty f.read_queue.list) refl in
      let g =
        if is_empty f.read_queue.list
        then f
        else record f { read_queue = record (f.read_queue) { list = reads } } in
      let h =
        if is_empty f.write_queue.list
        then g
        else record g { write_queue = record (f.write_queue) { list = writes } } in
      pick g h (apply_mlf_onlist quantum f.read_queue.list).selected
        (apply_mlf_onlist quantum f.write_queue.list).selected lr
        (writes-lists g (is_empty f.write_queue.list) refl lr)
        (apply-Selects quantum f.read_queue.list shaped.0)
        (apply-Selects quantum f.write_queue.list shaped.1)

-- What `MLF_select_request` returns, where the queues of the file are well formed.
abbrev pub Chosen : ℕ → File → Option Request × File → Type 0
Chosen quantum f c =
    ((c.0 ≡ none) × Kept f c.1)
    ⊎ ((r : Request) × (c.0 ≡ some r) × Selected quantum f c.1 r × Kept f c.1)

pub mlf_select_request-Chosen :
    (wait quantum now : ℕ) (f : File)
    → FileShaped f
    → Chosen quantum f (mlf_select_request wait quantum now f)
unfolding mlf_select_request
mlf_select_request-Chosen wait quantum now f shaped =
    by _ (mlf_candidate-Candidates quantum f shaped)
  where
    tested :
        (r : Request) (g h : File) (b : Bool)
        → SameLists h g
        → Selected quantum f g r
        → Kept f g
        → Chosen quantum f (checked r (b, h))
    tested r g h true s sel k =
        inr (r, refl, Selected-SameLists quantum f g h r s sel, Kept-SameLists f g h s k)
    tested r g h false s sel k = inl (refl, Kept-SameLists f g h s k)

    by :
        (c : Option Request × File)
        → Candidates quantum f shaped c
        → Chosen quantum f (elim (c.0) [
          | none ↦ (none, c.1)
          | some req ↦ checked req (check_selection wait now req c.1)
        ])
    by (none, g) (inl (e, k)) = inl (e, k)
    by (none, g) (inr (r, e, s, k)) = absurd (cc)
    by (some x, g) (inl (e, k)) = absurd (cc)
    by (some x, g) (inr (r, e, s, k)) =
        tested x g (check_selection wait now x g).1 (check_selection wait now x g).0
          (check_selection-SameLists wait now x g)
          (subst (Selected quantum f g) (some-injective _ _ (sym e)) s) k
