-- ===== src/Fifo/Parts.antt =====
-- Each part of the search of aIOLi.c keeps what was selected, or selects what one of its files offers.
use forwarding_explorer_agio.Prelude.{
  ℕ, ◌+◌, ◌-◌, ◌≤◌, ◌<◌, ◌≡◌, ◌⊎◌, inl, inr, refl, sym, ◌∙◌, Option, none, some, List, [], ◌∷◌, ltb,
  arith, Bool-cases, if◌then◌else◌,
}
use forwarding_explorer_agio.Data.{FileId, File}
use forwarding_explorer_agio.Waiting.{update_waiting_time_counters}
use mathlib.Core.Path.{subst}
use forwarding_explorer_agio.Fifo.{
  Candidate, Selected, Search, aioli_select_from_file, offer, wait_on, visit, visit_line,
  visit_lines, first_search,
}

-- What a file offers: nothing while it waits.
abbrev pub offered : (quantum now : ℕ) → File → Option Candidate
offered quantum now f =
    let g = (wait_on now f first_search).0 in
    if ltb 0 g.waiting_time then none else (aioli_select_from_file quantum g).0

abbrev pub NotBefore : ℕ → Option Candidate → Type 0
NotBefore m none = Unit {0}
NotBefore m (some c) = m ≤ c.timestamp

-- No file offers a request older than `m`.
abbrev pub LineNotBefore : (quantum now m : ℕ) → List File → Type 0
LineNotBefore quantum now m [] = Unit {0}
LineNotBefore quantum now m (f ∷ fs) =
    NotBefore m (offered quantum now f) × LineNotBefore quantum now m fs

abbrev pub LinesNotBefore :
    (quantum : ℕ) → (now : ℕ → ℕ) → (index m : ℕ) → List (List File) → Type 0
LinesNotBefore quantum now index m [] = Unit {0}
LinesNotBefore quantum now index m (l ∷ ls) =
    LineNotBefore quantum (now index) m l × LinesNotBefore quantum now (index + 1) m ls

-- A file offers the queue `c` with a request of time `m`.
abbrev pub Offers : (quantum now index : ℕ) → Selected → (m : ℕ) → File → Type 0
Offers quantum now index c m f =
    (c.index ≡ index)
    × (c.file_id ≡ f.file_id)
    × (offered quantum now f ≡ some (record { type = c.type; timestamp = m }))

abbrev pub LineOffers : (quantum now index : ℕ) → Selected → (m : ℕ) → List File → Type 0
LineOffers quantum now index c m [] = ⊥
LineOffers quantum now index c m (f ∷ fs) =
    Offers quantum now index c m f ⊎ LineOffers quantum now index c m fs

abbrev pub LinesOffer :
    (quantum : ℕ) → (now : ℕ → ℕ) → (index : ℕ) → Selected → (m : ℕ) → List (List File) → Type 0
LinesOffer quantum now index c m [] = ⊥
LinesOffer quantum now index c m (l ∷ ls) =
    LineOffers quantum (now index) index c m l ⊎ LinesOffer quantum now (index + 1) c m ls

-- A part of the search: it keeps what was selected, or selects what one of its files offers.
pub record Selects (s t : Search) (offers : Selected → ℕ → Type 0) : Type 0 where
  pub lower : t.selected_timestamp ≤ s.selected_timestamp
  pub choice :
      ((t.selected ≡ s.selected) × (t.selected_timestamp ≡ s.selected_timestamp))
      ⊎ ((c : Selected) × (t.selected ≡ some c)
          × (t.selected_timestamp < s.selected_timestamp)
          × offers c t.selected_timestamp)

kept : (s : Search) (offers : Selected → ℕ → Type 0) → Selects s s offers
kept s offers = record { lower = omega arith; choice = inl (refl, refl) }

-- One part after another.
both :
    {s t u : Search} {p q r : Selected → ℕ → Type 0}
    → Selects s t p
    → Selects t u q
    → ((c : Selected) (m : ℕ) → p c m → r c m)
    → ((c : Selected) (m : ℕ) → q c m → r c m)
    → Selects s u r
both {s} {t} {u} {p} {q} {r} a b left right = record {
  lower = omega (arith, a.lower, b.lower);
  choice = elim b.choice [
    | inr (c, e, lt, o) ↦ inr (c, e, omega (arith, a.lower, lt), right c u.selected_timestamp o)
    | inl (same, time) ↦ elim a.choice [
      | inl (e, k) ↦ inl (same ∙ e, time ∙ k)
      | inr (c, e, lt, o) ↦ inr (
        c,
        same ∙ e,
        omega (arith, lt, time),
        left c u.selected_timestamp (subst (p c) (sym time) o),
      )
    ]
  ];
}

offer-Selects :
    (index : ℕ) (file_id : FileId) (o : Option Candidate) (s : Search)
    → Selects s (offer index file_id o s) (λ c m.
      (c.index ≡ index)
      × (c.file_id ≡ file_id)
      × (o ≡ some (record { type = c.type; timestamp = m })))
      × NotBefore (offer index file_id o s).selected_timestamp o
unfolding offer
offer-Selects index file_id none s = (kept s _, tt)
offer-Selects index file_id (some c) s = elim (Bool-cases (ltb c.timestamp s.selected_timestamp)) [
  | inl older ↦ rw older (
    record {
      lower = ground arith;
      choice = inr (
        record { index = index; file_id = file_id; type = c.type },
        refl,
        ground arith,
        (refl, refl, refl),
      );
    },
    omega arith,
  )
  | inr younger ↦ rw younger (kept s _, ground arith)
]

-- What the file waits does not depend on the search.
waited : (now : ℕ) (f : File) (s : Search) → (wait_on now f s).0 ≡ (wait_on now f first_search).0
unfolding update_waiting_time_counters
waited now f s = elim (Bool-cases (ltb 0 f.waiting_time)) [
  | inr on ↦ rw on refl
  | inl waits ↦ rw waits (elim (Bool-cases (ltb (now - f.waiting_start) f.waiting_time)) [
    | inl left ↦ rw left refl
    | inr over ↦ rw over refl
  ])
]

-- Nor does waiting select anything.
wait_on-selected :
    (now : ℕ) (f : File) (s : Search)
    → ((wait_on now f s).1.selected ≡ s.selected)
      × ((wait_on now f s).1.selected_timestamp ≡ s.selected_timestamp)
wait_on-selected now f s = elim (Bool-cases (ltb 0 f.waiting_time)) [
  | inl waits ↦ rw waits (refl, refl)
  | inr on ↦ rw on (refl, refl)
]

wait_on-Selects :
    (now : ℕ) (f : File) (s : Search) (offers : Selected → ℕ → Type 0)
    → Selects s (wait_on now f s).1 offers
wait_on-Selects now f s offers =
    let (e, k) = wait_on-selected now f s in
    record { lower = omega (arith, k); choice = inl (e, k) }

-- The rest of a visit, on the file `g` after the wait.
abbrev visited : (quantum index : ℕ) → FileId → File → Search → File × Search
visited quantum index file_id g t =
    let c = aioli_select_from_file quantum g in
    if ltb 0 g.waiting_time then (g, t) else (c.1, offer index file_id c.0 t)

abbrev offered_by : (quantum : ℕ) → File → Option Candidate
offered_by quantum g = if ltb 0 g.waiting_time then none else (aioli_select_from_file quantum g).0

visited-Selects :
    (quantum index : ℕ) (k : FileId) (g : File) (t : Search)
    → Selects t (visited quantum index k g t).1 (λ c m.
      (c.index ≡ index)
      × (c.file_id ≡ k)
      × (offered_by quantum g ≡ some (record { type = c.type; timestamp = m })))
      × NotBefore (visited quantum index k g t).1.selected_timestamp (offered_by quantum g)
visited-Selects quantum index k g t = elim (Bool-cases (ltb 0 g.waiting_time)) [
  | inl waits ↦ rw waits (kept t _, tt)
  | inr on ↦ rw on (offer-Selects index k (aioli_select_from_file quantum g).0 t)
]

visit-Selects :
    (quantum now index : ℕ) (f : File) (s : Search)
    → Selects s (visit quantum now index f s).1 (λ c m. Offers quantum now index c m f)
      × NotBefore (visit quantum now index f s).1.selected_timestamp (offered quantum now f)
unfolding visit
visit-Selects quantum now index f s =
    let g = (wait_on now f first_search).0 in
    let t = (wait_on now f s).1 in
    let (one, lower) = visited-Selects quantum index f.file_id g t in
    subst
      (λ h.
        Selects s (visited quantum index f.file_id h t).1 (λ c m. Offers quantum now index c m f)
        × NotBefore (visited quantum index f.file_id h t).1.selected_timestamp
            (offered quantum now f))
      (sym (waited now f s))
      (
        both {r = λ c m. Offers quantum now index c m f}
            (wait_on-Selects now f s (λ c m. Offers quantum now index c m f)) one (λ c m o. o)
            (λ c m o. o),
        lower,
      )

NotBefore-mono : (a b : ℕ) (o : Option Candidate) → a ≤ b → NotBefore b o → NotBefore a o
NotBefore-mono a b none h k = tt
NotBefore-mono a b (some c) h k = omega arith

LineNotBefore-mono :
    (quantum now a b : ℕ) (l : List File)
    → a ≤ b
    → LineNotBefore quantum now b l
    → LineNotBefore quantum now a l
LineNotBefore-mono quantum now a b [] h k = tt
LineNotBefore-mono quantum now a b (f ∷ l) h k =
    (NotBefore-mono a b (offered quantum now f) h k.0, LineNotBefore-mono quantum now a b l h k.1)

visit_line-Selects :
    (quantum now index : ℕ) (l : List File) (s : Search)
    → Selects s (visit_line quantum now index l s).1 (λ c m. LineOffers quantum now index c m l)
      × LineNotBefore quantum now (visit_line quantum now index l s).1.selected_timestamp l
unfolding visit_line
visit_line-Selects quantum now index [] s = (kept s _, tt)
visit_line-Selects quantum now index (f ∷ fs) s =
    let t = (visit quantum now index f s).1 in
    let (one, here) = visit-Selects quantum now index f s in
    let (rest, later) = visit_line-Selects quantum now index fs t in
    (
      both {r = λ c m. LineOffers quantum now index c m (f ∷ fs)} one rest (λ c m o. inl o)
          (λ c m o. inr o),
      (NotBefore-mono _ t.selected_timestamp (offered quantum now f) rest.lower here, later),
    )

pub visit_lines-Selects :
    (quantum : ℕ) (now : ℕ → ℕ) (index : ℕ) (ls : List (List File)) (s : Search)
    → Selects s (visit_lines quantum now index ls s).1 (λ c m. LinesOffer quantum now index c m ls)
      × LinesNotBefore quantum now index
          (visit_lines quantum now index ls s).1.selected_timestamp
          ls
unfolding visit_lines
visit_lines-Selects quantum now index [] s = (kept s _, tt)
visit_lines-Selects quantum now index (l ∷ ls) s =
    let t = (visit_line quantum (now index) index l s).1 in
    let (one, here) = visit_line-Selects quantum (now index) index l s in
    let (rest, later) = visit_lines-Selects quantum now (index + 1) ls t in
    (
      both {r = λ c m. LinesOffer quantum now index c m (l ∷ ls)} one rest (λ c m o. inl o)
          (λ c m o. inr o),
      (LineNotBefore-mono quantum (now index) _ t.selected_timestamp l rest.lower here, later),
    )
