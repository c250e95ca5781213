-- ===== src/Sjf/Shortest.antt =====
-- The search of SJF.c finds a shortest queue.
use forwarding_explorer_agio.Prelude.{
  ℕ, ◌+◌, ◌≤◌, ◌≡◌, refl, sym, true, Option, none, some, List, [], ◌∷◌, ltb, if◌then◌else◌,
  Bool-cases, inl, inr, arith,
}
use forwarding_explorer_agio.Prelude.Int.{ℤ, pos, ltb_ℤ, ◌≤ℤ◌}
use forwarding_explorer_agio.Data.{FileId, Queue, File, rt_read, rt_write}
use mathlib.Core.Path.{subst}
use forwarding_explorer_agio.Sjf.{
  long_max, Choice, Search, sjf_check_queue, consider, has_requests, evaluate, evaluate_line,
  search_lines, start, sjf_get_shortest_job,
}

-- `m` is at most the size of a queue that has one.
abbrev pub AtMost : ℤ → Queue → Type 0
AtMost m q = ltb_ℤ (pos 0) q.current_size ≡ true → m ≤ℤ q.current_size

abbrev pub AtMostFile : ℤ → File → Type 0
AtMostFile m f = has_requests f ≡ true → AtMost m f.read_queue × AtMost m f.write_queue

abbrev pub AtMostLine : ℤ → List File → Type 0
AtMostLine m [] = Unit {0}
AtMostLine m (f ∷ fs) = AtMostFile m f × AtMostLine m fs

abbrev pub AtMostAll : ℤ → List (List File) → Type 0
AtMostAll m [] = Unit {0}
AtMostAll m (l ∷ ls) = AtMostLine m l × AtMostAll m ls

-- The size of the chosen queue is the minimum so far, which starts at `LONG_MAX`.
abbrev pub Tracks : Search → Type 0
Tracks s = elim s.chosen [
  | none ↦ s.min_size ≡ long_max
  | some c ↦ (c.queue.current_size ≡ s.min_size) × (ltb_ℤ (pos 0) s.min_size ≡ true)
]

-- `t` follows `s` in a search.
pub record Follows (s t : Search) : Type 0 where
  pub lower : t.min_size ≤ℤ s.min_size
  pub tracks : Tracks s → Tracks t

≤ℤ_refl : (a : ℤ) → a ≤ℤ a
≤ℤ_refl a = omega arith

consider-Follows :
    (i : ℕ) (k : FileId) (type : ℕ) (q : Queue) (s : Search)
    → Follows s (consider i k type q s) × AtMost (consider i k type q s).min_size q
unfolding consider sjf_check_queue
consider-Follows i k type q s = elim (Bool-cases (sjf_check_queue q s.min_size)) [
  | inl taken ↦ rw taken (
    record { lower = ground arith; tracks = λ h. (refl, ground arith) },
    λ h. ≤ℤ_refl q.current_size,
  )
  | inr left ↦ rw left (record { lower = ≤ℤ_refl s.min_size; tracks = λ h. h }, λ h. ground arith)
]

≤ℤ_trans : (a b c : ℤ) → a ≤ℤ b → b ≤ℤ c → a ≤ℤ c
≤ℤ_trans a b c h k = omega arith

Follows-trans : {s t u : Search} → Follows s t → Follows t u → Follows s u
Follows-trans {s} {t} {u} h k = record {
  lower = ≤ℤ_trans u.min_size t.min_size s.min_size k.lower h.lower;
  tracks = λ x. k.tracks (h.tracks x);
}

AtMost-mono : (a b : ℤ) (q : Queue) → a ≤ℤ b → AtMost b q → AtMost a q
AtMost-mono a b q h k e = ≤ℤ_trans a b q.current_size h (k e)

AtMostFile-mono : (a b : ℤ) (f : File) → a ≤ℤ b → AtMostFile b f → AtMostFile a f
AtMostFile-mono a b f h k e =
    let (r, w) = k e in (AtMost-mono a b f.read_queue h r, AtMost-mono a b f.write_queue h w)

AtMostLine-mono : (a b : ℤ) (l : List File) → a ≤ℤ b → AtMostLine b l → AtMostLine a l
AtMostLine-mono a b [] h k = tt
AtMostLine-mono a b (f ∷ l) h k = (AtMostFile-mono a b f h k.0, AtMostLine-mono a b l h k.1)

evaluated-consider :
    (i : ℕ) (k : FileId) (type : ℕ) (q : Queue) (s : Search)
    → (consider i k type q s).evaluated_reqfiles ≡ s.evaluated_reqfiles
unfolding consider
evaluated-consider i k type q s = ground arith

-- How many files of a line, and of all lines, have requests.
abbrev pub active_line : List File → ℕ
active_line [] = 0
active_line (f ∷ fs) = (if has_requests f then 1 else 0) + active_line fs

abbrev pub active : List (List File) → ℕ
active [] = 0
active (l ∷ ls) = active_line l + active ls

evaluate-Follows :
    (i : ℕ) (f : File) (s : Search)
    → Follows s (evaluate i f s)
      × AtMostFile (evaluate i f s).min_size f
      × ((evaluate i f s).evaluated_reqfiles
          ≡ s.evaluated_reqfiles + (if has_requests f then 1 else 0))
unfolding evaluate
evaluate-Follows i f s = elim (Bool-cases (has_requests f)) [
  | inr empty ↦
      rw empty
        (record { lower = ≤ℤ_refl s.min_size; tracks = λ h. h }, λ e. absurd (cc e), omega arith)
  | inl full ↦
      let s0 : Search = record s { evaluated_reqfiles = s.evaluated_reqfiles + 1 } in
      let s1 = consider i f.file_id rt_read f.read_queue s0 in
      let s2 = consider i f.file_id rt_write f.write_queue s1 in
      let a = consider-Follows i f.file_id rt_read f.read_queue s0 in
      let b = consider-Follows i f.file_id rt_write f.write_queue s1 in
      let c : Follows s s0 = record { lower = ≤ℤ_refl s.min_size; tracks = λ h. h } in
      rw full (
        Follows-trans c (Follows-trans a.0 b.0),
        (λ e. (AtMost-mono s2.min_size s1.min_size f.read_queue b.0.lower a.1, b.1)),
        omega (
          arith,
          evaluated-consider i f.file_id rt_read f.read_queue s0,
          evaluated-consider i f.file_id rt_write f.write_queue s1,
        ),
      )
]

evaluate_line-Follows :
    (i : ℕ) (l : List File) (s : Search)
    → Follows s (evaluate_line i l s)
      × AtMostLine (evaluate_line i l s).min_size l
      × ((evaluate_line i l s).evaluated_reqfiles ≡ s.evaluated_reqfiles + active_line l)
unfolding evaluate_line
evaluate_line-Follows i [] s =
    (record { lower = ≤ℤ_refl s.min_size; tracks = λ h. h }, tt, omega arith)
evaluate_line-Follows i (f ∷ fs) s =
    let t = evaluate i f s in
    let a = evaluate-Follows i f s in
    let b = evaluate_line-Follows i fs t in
    (
      Follows-trans a.0 b.0,
      (AtMostFile-mono (evaluate_line i fs t).min_size t.min_size f b.0.lower a.1, b.1),
      omega (arith, a.2, b.2),
    )

inactive_line : (m : ℤ) (l : List File) → active_line l ≡ 0 → AtMostLine m l
inactive_line m [] h = tt
inactive_line m (f ∷ l) h = ((λ e. absurd (ground arith)), inactive_line m l (omega arith))

inactive : (m : ℤ) (ls : List (List File)) → active ls ≡ 0 → AtMostAll m ls
inactive m [] h = tt
inactive m (l ∷ ls) h = (inactive_line m l (omega arith), inactive m ls (omega arith))

abbrev Covers : Search → List File → List (List File) → Search → Type 0
Covers s l ls t = Follows s t × (AtMostLine t.min_size l × AtMostAll t.min_size ls)

search_lines-Follows :
    (filenb i : ℕ) (ls : List (List File)) (s : Search)
    → s.evaluated_reqfiles + active ls ≤ filenb
    → Follows s (search_lines filenb i ls s) × AtMostAll (search_lines filenb i ls s).min_size ls
unfolding search_lines
search_lines-Follows filenb i [] s h = (record { lower = ≤ℤ_refl s.min_size; tracks = λ x. x }, tt)
search_lines-Follows filenb i (l ∷ ls) s h =
    let t = evaluate_line i l s in
    let a = evaluate_line-Follows i l s in
    elim (Bool-cases (ltb t.evaluated_reqfiles filenb)) [
      | inr all_seen ↦
          let over : filenb ≤ t.evaluated_reqfiles = ground arith in
          let stop : search_lines filenb i (l ∷ ls) s ≡ t = rw all_seen in
          subst (Covers s l ls) (sym stop)
            (a.0, (a.1, inactive t.min_size ls (omega (arith, a.2, over))))
      | inl more ↦
          let u = search_lines filenb (i + 1) ls t in
          let b = search_lines-Follows filenb (i + 1) ls t (omega (arith, a.2)) in
          let on : search_lines filenb i (l ∷ ls) s ≡ u = rw more in
          subst (Covers s l ls) (sym on)
            (Follows-trans a.0 b.0, (AtMostLine-mono u.min_size t.min_size l b.0.lower a.1, b.1))
    ]

-- The answer of the search: a queue with requests that is no longer than any other, or none, and
-- then every queue that has a size is as long as a queue can be.
abbrev pub IsShortest : List (List File) → Option Choice → Type 0
IsShortest hashlist none = AtMostAll long_max hashlist
IsShortest hashlist (some c) =
    (ltb_ℤ (pos 0) c.queue.current_size ≡ true) × AtMostAll c.queue.current_size hashlist

-- SJF takes its requests from a shortest queue of the files with requests, as long as the counter of
-- files, by which the search is cut short, counts all of them.
pub sjf_get_shortest_job-IsShortest :
    (current_filenb : ℕ) (hashlist : List (List File))
    → active hashlist ≤ current_filenb
    → IsShortest hashlist (sjf_get_shortest_job current_filenb hashlist)
unfolding sjf_get_shortest_job
sjf_get_shortest_job-IsShortest filenb hashlist h =
    let (f, all) = search_lines-Follows filenb 0 hashlist start (omega arith) in
    answer (search_lines filenb 0 hashlist start).chosen
      (search_lines filenb 0 hashlist start).min_size (f.tracks refl) all
  where
    answer :
        (o : Option Choice) (m : ℤ)
        → Tracks (record { min_size = m; chosen = o; evaluated_reqfiles = 0 })
        → AtMostAll m hashlist
        → IsShortest hashlist o
    answer none m t all = subst (λ z. AtMostAll z hashlist) t all
    answer (some c) m t all = (
      subst (λ z. ltb_ℤ (pos 0) z ≡ true) (sym t.0) t.1,
      subst (λ z. AtMostAll z hashlist) (sym t.0) all,
    )
