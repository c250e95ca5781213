-- ===== src/Sjf/Choices.antt =====
-- The search of SJF.c chooses a queue of the hashtable, under the handle and the type that it has there.
use forwarding_explorer_agio.Prelude.{
  ℕ, suc, ◌+◌, ◌≡◌, refl, sym, ap, ◌∙◌, Option, none, some, List, [], ◌∷◌, ltb, get_or, arith,
  Bool-cases, inl, inr,
}
use forwarding_explorer_agio.Data.{FileId, Queue, File, rt_read, rt_write}
use forwarding_explorer_agio.Files.{find_file}
use forwarding_explorer_agio.Files.Lookup.{
  Above, IsLine, Above-trans, Above-IsLine, strcmp_refl, eq_of_strcmp,
}
use forwarding_explorer_agio.Process.{queue_of}
use forwarding_explorer_agio.Sjf.{
  Choice, Search, consider, has_requests, evaluate, evaluate_line, search_lines, start,
  sjf_get_shortest_job,
}
use mathlib.Core.Path.{subst}

module _ (P : Choice → Type 0) where
  abbrev Chose : Option Choice → Type 0
  Chose none = Unit {0}
  Chose (some c) = P c

  -- Both queues of the file may be chosen from line `i`.
  abbrev FileAllows : ℕ → File → Type 0
  FileAllows i f =
      P (record { hash = i; file_id = f.file_id; type = rt_read; queue = f.read_queue })
      × P (record { hash = i; file_id = f.file_id; type = rt_write; queue = f.write_queue })

  abbrev LineAllows : ℕ → List File → Type 0
  LineAllows i [] = Unit {0}
  LineAllows i (f ∷ fs) = FileAllows i f × LineAllows i fs

  abbrev LinesAllow : ℕ → List (List File) → Type 0
  LinesAllow i [] = Unit {0}
  LinesAllow i (l ∷ ls) = LineAllows i l × LinesAllow (i + 1) ls

  consider-Chose :
      (i : ℕ) (k : FileId) (type : ℕ) (q : Queue) (s : Search)
      → P (record { hash = i; file_id = k; type = type; queue = q })
      → Chose s.chosen
      → Chose (consider i k type q s).chosen
  unfolding consider
  consider-Chose i k type q s h c = ground arith

  evaluate-Chose :
      (i : ℕ) (f : File) (s : Search)
      → FileAllows i f
      → Chose s.chosen
      → Chose (evaluate i f s).chosen
  unfolding evaluate
  evaluate-Chose i f s h c = elim (Bool-cases (has_requests f)) [
    | inr empty ↦ rw empty c
    | inl full ↦
        let s0 : Search = record s { evaluated_reqfiles = s.evaluated_reqfiles + 1 } in
        rw full (
          consider-Chose i f.file_id rt_write f.write_queue
            (consider i f.file_id rt_read f.read_queue s0) h.1
            (consider-Chose i f.file_id rt_read f.read_queue s0 h.0 c))
  ]

  evaluate_line-Chose :
      (i : ℕ) (l : List File) (s : Search)
      → LineAllows i l
      → Chose s.chosen
      → Chose (evaluate_line i l s).chosen
  unfolding evaluate_line
  evaluate_line-Chose i [] s h c = c
  evaluate_line-Chose i (f ∷ l) s h c =
      evaluate_line-Chose i l (evaluate i f s) h.1 (evaluate-Chose i f s h.0 c)

  search_lines-Chose :
      (filenb i : ℕ) (ls : List (List File)) (s : Search)
      → LinesAllow i ls
      → Chose s.chosen
      → Chose (search_lines filenb i ls s).chosen
  unfolding search_lines
  search_lines-Chose filenb i [] s h c = c
  search_lines-Chose filenb i (l ∷ ls) s h c =
      let t = evaluate_line i l s in
      let d = evaluate_line-Chose i l s h.0 c in
      elim (Bool-cases (ltb t.evaluated_reqfiles filenb)) [
        | inr all_seen ↦ rw all_seen d
        | inl more ↦ rw more (search_lines-Chose filenb (i + 1) ls t h.1 d)
      ]

-- The choice is the queue of its type of the file that its handle finds in its line.
pub record Stands (hashlist : List (List File)) (c : Choice) : Type 0 where
  pub file : File
  pub found : find_file c.file_id (get_or hashlist c.hash []) ≡ some file
  pub queue : c.queue ≡ queue_of c.type file

-- Every file of this part of a line is found under its handle in the line.
abbrev AllFound : List File → List File → Type 0
AllFound line [] = Unit {0}
AllFound line (f ∷ fs) = (find_file f.file_id line ≡ some f) × AllFound line fs

AllFound-cons :
    (f : File) (line fs : List File)
    → Above f.file_id fs
    → AllFound line fs
    → AllFound (f ∷ line) fs
unfolding find_file
AllFound-cons f line [] h k = tt
AllFound-cons f line (g ∷ fs) h k = (
  ground (arith, eq_of_strcmp f.file_id g.file_id, k.0, h.0, strcmp_refl g.file_id),
  AllFound-cons f line fs (Above-trans f.file_id g.file_id fs h.0 h.1) k.1,
)

IsLine-AllFound : (line : List File) → IsLine line → AllFound line line
unfolding find_file
IsLine-AllFound [] h = tt
IsLine-AllFound (f ∷ fs) h = (
  rw (strcmp_refl f.file_id, find_file) refl,
  AllFound-cons f fs fs h (IsLine-AllFound fs (Above-IsLine f.file_id fs h)),
)

LineAllows-Stands :
    (hashlist : List (List File)) (i : ℕ) (fs : List File)
    → AllFound (get_or hashlist i []) fs
    → LineAllows (Stands hashlist) i fs
LineAllows-Stands hashlist i [] h = tt
LineAllows-Stands hashlist i (f ∷ fs) h = (
  (record { file = f; found = h.0; queue = refl }, record { file = f; found = h.0; queue = refl }),
  LineAllows-Stands hashlist i fs h.1,
)

LinesAllow-Stands :
    (hashlist : List (List File)) (i : ℕ) (ls : List (List File))
    → ((h : ℕ) → IsLine (get_or hashlist h []))
    → ((j : ℕ) → get_or ls j [] ≡ get_or hashlist (i + j) [])
    → LinesAllow (Stands hashlist) i ls
LinesAllow-Stands hashlist i [] lines e = tt
LinesAllow-Stands hashlist i (l ∷ ls) lines e =
    let here : l ≡ get_or hashlist i [] = e 0 ∙ ap (λ k. get_or hashlist k []) (omega arith) in
    (
      LineAllows-Stands hashlist i l (
          subst (λ x. AllFound (get_or hashlist i []) x) (sym here)
            (IsLine-AllFound (get_or hashlist i []) (lines i))),
      LinesAllow-Stands hashlist (i + 1) ls lines
          (λ j. e (suc j) ∙ ap (λ k. get_or hashlist k []) (omega arith)),
    )

pub sjf_get_shortest_job-Stands :
    (filenb : ℕ) (hashlist : List (List File)) (c : Choice)
    → ((h : ℕ) → IsLine (get_or hashlist h []))
    → sjf_get_shortest_job filenb hashlist ≡ some c
    → Stands hashlist c
unfolding sjf_get_shortest_job
sjf_get_shortest_job-Stands filenb hashlist c lines e = subst (Chose (Stands hashlist)) e (
    search_lines-Chose (Stands hashlist) filenb 0 hashlist start
      (LinesAllow-Stands hashlist 0 hashlist lines
        (λ j. ap (λ k. get_or hashlist k []) (omega arith)))
      tt)
