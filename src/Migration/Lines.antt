-- ===== src/Migration/Lines.antt =====
-- Files and lines of the hashtable under a write to one file: what they carry, and their order.
use forwarding_explorer_agio.Prelude.{
  ℕ, zero, suc, ◌+◌, ◌≡◌, sym, ◌∙◌, ◌⊎◌, some, List, [], ◌∷◌, ◌==◌, arith, Bool-cases, inl, inr,
  get_or, set,
}
use mathlib.Core.Path.{subst}
use mathlib.Core.Option.{some-injective}
use forwarding_explorer_agio.Data.{FileId, Fields, Requests, File, rt_read}
use forwarding_explorer_agio.Files.{strcmp, same, find_file, set_file}
use forwarding_explorer_agio.Files.Lookup.{Order-cases, eq_of_strcmp}
use forwarding_explorer_agio.Migration.ToTimeline.{in_file, in_line, in_lines}
use forwarding_explorer_agio.Placement.Sorted.{IsQueue}
use forwarding_explorer_agio.Process.{queue_of, on_queue}
use forwarding_explorer_agio.Requests.{total}

-- Queues in offset order, of well-formed requests within the limit.
abbrev pub FileSorted : ℕ → File → Type 0
FileSorted limit f = IsQueue limit 0 f.read_queue.list × IsQueue limit 0 f.write_queue.list

abbrev pub LineSorted : ℕ → List File → Type 0
LineSorted limit [] = Unit {0}
LineSorted limit (f ∷ fs) = FileSorted limit f × LineSorted limit fs

abbrev pub LinesSorted : ℕ → List (List File) → Type 0
LinesSorted limit [] = Unit {0}
LinesSorted limit (l ∷ ls) = LineSorted limit l × LinesSorted limit ls

pub handle-find_file :
    (k : FileId) (fs : List File) (f : File) → find_file k fs ≡ some f → f.file_id ≡ k
unfolding find_file
handle-find_file k [] f e = cc
handle-find_file k (x ∷ fs) f e = ground (arith, handle-find_file k fs f, eq_of_strcmp x.file_id k)

pub in_line-set_file :
    (w : Fields → ℕ) (g f : File) (fs : List File)
    → find_file g.file_id fs ≡ some f
    → in_line w (set_file g fs) + in_file w f ≡ in_line w fs + in_file w g
unfolding find_file set_file
in_line-set_file w g f [] e = cc
in_line-set_file w g f (x ∷ fs) e = ground (arith, in_line-set_file w g f fs)

pub in_lines-set_file :
    (w : Fields → ℕ) (g f : File) (ls : List (List File)) (i : ℕ)
    → find_file g.file_id (get_or ls i []) ≡ some f
    → in_lines w (set ls i (set_file g (get_or ls i []))) + in_file w f
      ≡ in_lines w ls + in_file w g
in_lines-set_file w g f [] i e = absurd (unfold find_file in cc)
in_lines-set_file w g f (l ∷ ls) zero e = omega (arith, in_line-set_file w g f l e)
in_lines-set_file w g f (l ∷ ls) (suc i) e = omega (arith, in_lines-set_file w g f ls i e)

pub set_file-LineSorted :
    (limit : ℕ) (g : File) (fs : List File)
    → FileSorted limit g
    → LineSorted limit fs
    → LineSorted limit (set_file g fs)
unfolding set_file
set_file-LineSorted limit g [] s h = tt
set_file-LineSorted limit g (x ∷ fs) s h =
    let rest = set_file-LineSorted limit g fs s h.1 in ground arith

pub set-LinesSorted_line :
    (limit : ℕ) (ls : List (List File)) (i : ℕ) (gs : List File)
    → LineSorted limit gs
    → LinesSorted limit ls
    → LinesSorted limit (set ls i gs)
set-LinesSorted_line limit [] i gs s h = tt
set-LinesSorted_line limit (l ∷ ls) zero gs s h = (s, h.1)
set-LinesSorted_line limit (l ∷ ls) (suc i) gs s h = (h.0, set-LinesSorted_line limit ls i gs s h.1)

pub set-LinesSorted :
    (limit : ℕ) (g : File) (ls : List (List File)) (i : ℕ)
    → FileSorted limit g
    → LinesSorted limit ls
    → LinesSorted limit (set ls i (set_file g (get_or ls i [])))
set-LinesSorted limit g [] i s h = tt
set-LinesSorted limit g (l ∷ ls) zero s h = (set_file-LineSorted limit g l s h.0, h.1)
set-LinesSorted limit g (l ∷ ls) (suc i) s h = (h.0, set-LinesSorted limit g ls i s h.1)

find_file-cons :
    (k : FileId) (x f : File) (fs : List File)
    → find_file k (x ∷ fs) ≡ some f
    → (x ≡ f) ⊎ (find_file k fs ≡ some f)
unfolding find_file
find_file-cons k x f fs e = elim (Order-cases (strcmp x.file_id k)) [
  | inl low ↦ inr (ground (arith, low))
  | inr (inl here) ↦ inl (some-injective _ _ (sym (found x fs here) ∙ e))
  | inr (inr high) ↦ inr (ground (arith, high))
]
  where
    found : (x : File) (fs : List File) → strcmp x.file_id k ≡ same → find_file k (x ∷ fs) ≡ some x
    found x fs here = ground (arith, here)

pub find_file-LineSorted :
    (limit : ℕ) (k : FileId) (f : File) (fs : List File)
    → find_file k fs ≡ some f
    → LineSorted limit fs
    → FileSorted limit f
unfolding find_file
find_file-LineSorted limit k f [] e h = absurd (cc)
find_file-LineSorted limit k f (x ∷ fs) e h = elim (find_file-cons k x f fs e) [
  | inl here ↦ subst (FileSorted limit) here h.0
  | inr later ↦ find_file-LineSorted limit k f fs later h.1
]

pub get_or-LineSorted :
    (limit : ℕ) (ls : List (List File)) (i : ℕ)
    → LinesSorted limit ls
    → LineSorted limit (get_or ls i [])
get_or-LineSorted limit [] i h = tt
get_or-LineSorted limit (l ∷ ls) zero h = h.0
get_or-LineSorted limit (l ∷ ls) (suc i) h = get_or-LineSorted limit ls i h.1

-- What a request leaves of the queue that it goes to, in the file.
pub queue_of-FileSorted :
    (limit type : ℕ) (f : File) → FileSorted limit f → IsQueue limit 0 (queue_of type f).list
queue_of-FileSorted limit type f h = elim (Bool-cases (type == rt_read)) [
  | inl read ↦ rw read h.0
  | inr write ↦ rw write h.1
]

pub on_queue-FileSorted :
    (limit type : ℕ) (q : Requests) (f : File)
    → IsQueue limit 0 q
    → FileSorted limit f
    → FileSorted limit (on_queue type (λ x. record x { list = q }) f)
on_queue-FileSorted limit type q f s h = elim (Bool-cases (type == rt_read)) [
  | inl read ↦ rw read (s, h.1)
  | inr write ↦ rw write (h.0, s)
]

pub in_file-on_queue :
    (w : Fields → ℕ) (type : ℕ) (q : Requests) (f : File) (n : ℕ)
    → total w q ≡ total w (queue_of type f).list + n
    → in_file w (on_queue type (λ x. record x { list = q }) f) ≡ in_file w f + n
in_file-on_queue w type q f n e = ground arith

pub handle-on_queue :
    (type : ℕ) (q : Requests) (f : File)
    → (on_queue type (λ x. record x { list = q }) f).file_id ≡ f.file_id
handle-on_queue type q f = ground arith
