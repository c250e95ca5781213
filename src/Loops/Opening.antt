-- ===== src/Loops/Opening.antt =====
-- What opening the file of a new request does to the hashtable.
use forwarding_explorer_agio.Prelude.{
  ℕ, zero, suc, ◌<◌, ◌≡◌, ◌≢◌, refl, sym, ap, ◌∙◌, inl, inr, none, some, List, [], ◌∷◌, get_or, set,
  length, arith, length-set, Option, Bool-cases, ◌==◌,
}
use mathlib.Core.Path.{subst}
use forwarding_explorer_agio.Data.{FileId, Fields, Request, fields, File}
use forwarding_explorer_agio.Entry.{stamp_first, opened, open_file}
use forwarding_explorer_agio.Files.{
  Order, below, same, above, strcmp, find_file, set_file, Found, count_file, find_req_file, skip,
  add_before, find_or_add, file_constructor, file_init, init_queue,
}
use forwarding_explorer_agio.Files.Lookup.{
  strcmp_refl, Above, IsLine, Finds, find_or_add-Finds, eq_of_strcmp, Order-cases,
  find_file-set_file,
}
use forwarding_explorer_agio.Hash.{
  get_hashtable_position, agios_hash_entries, get_hashtable_position_bounds,
}
use forwarding_explorer_agio.Loops.Draining.{get_or-set_cases, find_file-set_file_known, IsKnown}
use forwarding_explorer_agio.Migration.ToTimeline.{in_file, in_line, in_lines}
use forwarding_explorer_agio.Migration.Lines.{
  FileSorted, LineSorted, LinesSorted, in_line-set_file, set_file-LineSorted, find_file-LineSorted,
  get_or-LineSorted, set-LinesSorted_line,
}
use forwarding_explorer_agio.Mlf.Lines.{in_lines-set}
use forwarding_explorer_agio.Requests.{total}
use forwarding_explorer_agio.State.{Agios, line, set_line, file_of, put_file}

set_file-Above : (g : File) (k : FileId) (fs : List File) → Above k fs → Above k (set_file g fs)
unfolding set_file
set_file-Above g k [] h = tt
set_file-Above g k (f ∷ fs) h = elim (Order-cases (strcmp f.file_id g.file_id)) [
  | inl e ↦ rw (e, set_file) (h.0, set_file-Above g f.file_id fs h.1)
  | inr (inl e) ↦ rw (e, set_file, ← eq_of_strcmp f.file_id g.file_id e) h
  | inr (inr e) ↦ rw (e, set_file) (h.0, set_file-Above g f.file_id fs h.1)
]

set_file-IsLine : (g : File) (fs : List File) → IsLine fs → IsLine (set_file g fs)
unfolding set_file
set_file-IsLine g [] h = tt
set_file-IsLine g (f ∷ fs) h = elim (Order-cases (strcmp f.file_id g.file_id)) [
  | inl e ↦ rw (e, set_file) (set_file-Above g f.file_id fs h)
  | inr (inl e) ↦ rw (e, set_file, ← eq_of_strcmp f.file_id g.file_id e) h
  | inr (inr e) ↦ rw (e, set_file) (set_file-Above g f.file_id fs h)
]

set_line-lines :
    (a : Agios) (i : ℕ) (v : List File)
    → IsLine v
    → ((h : ℕ) → IsLine (line h a))
    → (h : ℕ) → IsLine (line h (set_line i v a))
set_line-lines a i v new old h = elim (get_or-set_cases a.hashlist i v h) [
  | inl (_, p) ↦ subst IsLine (sym p) new
  | inr p ↦ subst IsLine (sym p) (old h)
]

pub put_file-lines :
    (g : File) (a : Agios)
    → ((h : ℕ) → IsLine (line h a))
    → (h : ℕ) → IsLine (line h (put_file g a))
unfolding put_file
put_file-lines g a old =
    let i = get_hashtable_position g.file_id in
    set_line-lines a i (set_file g (line i a)) (set_file-IsLine g (line i a) (old i)) old

get_or-set_same :
    (xs : List (List File)) (i : ℕ) (v : List File) → i < length xs → get_or (set xs i v) i [] ≡ v
get_or-set_same [] i v h = absurd (omega arith)
get_or-set_same (x ∷ xs) zero v h = refl
get_or-set_same (x ∷ xs) (suc i) v h = get_or-set_same xs i v (omega arith)

handle-stamp_first : (req : Request) (f : File) → (stamp_first req f).file_id ≡ f.file_id
handle-stamp_first req f = ground arith

not_same : (k j : FileId) (o : Order) → strcmp k j ≡ o → o ≢ same → k ≢ j
not_same k j o e ne q = ne (sym e ∙ ap (λ x. strcmp x j) q ∙ strcmp_refl j)

-- Finding or making one file loses no other.
Finds-known :
    (file_id k : FileId) (fs : List File) (r : Found)
    → Finds file_id fs r
    → find_file k fs ≢ none
    → find_file k r.line ≢ none
Finds-known file_id k fs r finds h = elim (Order-cases (strcmp k file_id)) [
  | inl e ↦ subst (λ o. o ≢ none) (sym (finds.others k (not_same k file_id below e (λ x. cc)))) h
  | inr (inl e) ↦
      subst (λ j. find_file j r.line ≢ none) (sym (eq_of_strcmp k file_id e))
        (λ n. cc (n, finds.found))
  | inr (inr e) ↦
      subst (λ o. o ≢ none) (sym (finds.others k (not_same k file_id above e (λ x. cc)))) h
]

-- The line of a found or new file holds the same requests, in the same order.
record Kept (fs : List File) (r : Found) : Type 0 where
  carries : (w : Fields → ℕ) → in_line w r.line ≡ in_line w fs
  sorted : (limit : ℕ) → LineSorted limit fs → LineSorted limit r.line

file_init-empty : (w : Fields → ℕ) (m : File) (k : FileId) → in_file w (file_init m k) ≡ 0
unfolding file_init init_queue total
file_init-empty w m k = refl

file_init-FileSorted : (limit : ℕ) (m : File) (k : FileId) → FileSorted limit (file_init m k)
unfolding file_init init_queue
file_init-FileSorted limit m k = (tt, tt)

abbrev KeptBy : List File → Option Found → Type 0
KeptBy fs none = Unit {0}
KeptBy fs (some r) = Kept fs r

skip-Kept :
    (f : File) (fs : List File) (o : Option Found) → KeptBy fs o → KeptBy (f ∷ fs) (skip f o)
skip-Kept f fs none h = tt
skip-Kept f fs (some r) h = record {
  carries = λ w. omega (arith, h.carries w);
  sorted = λ limit s. (s.0, h.sorted limit s.1);
}

add_before-Kept :
    (m : File) (k : FileId) (fs : List File) → KeptBy fs (add_before fs (some (file_init m k)))
add_before-Kept m k fs = record {
  carries = λ w. omega (arith, file_init-empty w m k);
  sorted = λ limit s. (file_init-FileSorted limit m k, s);
}

find_or_add-KeptBy :
    (m : File) (k : FileId) (fs : List File) → KeptBy fs (find_or_add (some m) fs k)
unfolding find_or_add file_constructor
find_or_add-KeptBy m k [] = add_before-Kept m k []
find_or_add-KeptBy m k (f ∷ fs) = elim (Order-cases (strcmp f.file_id k)) [
  | inl low ↦
      rw (low, find_or_add) (skip-Kept f fs (find_or_add (some m) fs k) (find_or_add-KeptBy m k fs))
  | inr (inl here) ↦ rw (here, find_or_add) (record { carries = λ w. refl; sorted = λ limit s. s })
  | inr (inr high) ↦ rw (high, find_or_add) (add_before-Kept m k (f ∷ fs))
]

find_or_add-Kept :
    (m : File) (k : FileId) (fs : List File) (r : Found)
    → find_or_add (some m) fs k ≡ some r
    → Kept fs r
find_or_add-Kept m k fs r run = subst (KeptBy fs) run (find_or_add-KeptBy m k fs)

in_file-stamp_first :
    (w : Fields → ℕ) (req : Request) (f : File) → in_file w (stamp_first req f) ≡ in_file w f
in_file-stamp_first w req f = elim (Bool-cases (f.first_request_time == 0)) [
  | inl first ↦ rw first refl
  | inr later ↦ rw later refl
]

stamp_first-FileSorted :
    (limit : ℕ) (req : Request) (f : File)
    → FileSorted limit f
    → FileSorted limit (stamp_first req f)
stamp_first-FileSorted limit req f h = elim (Bool-cases (f.first_request_time == 0)) [
  | inl first ↦ rw first h
  | inr later ↦ rw later h
]

-- What opening the file of a new request does to a state.
pub record Opened (req : Request) (a : Agios) (f : File) (b : Agios) : Type 0 where
  pub alg : b.current_alg ≡ a.current_alg
  pub scheduler : b.current_scheduler ≡ a.current_scheduler
  pub timeline : b.timeline ≡ a.timeline
  pub reqnb : b.counters.current_reqnb ≡ a.counters.current_reqnb
  pub width : length b.hashlist ≡ length a.hashlist
  pub lines : (h : ℕ) → IsLine (line h b)
  pub keeps : (k : FileId) → IsKnown a k → IsKnown b k
  pub found : file_of (fields req).file_id b ≡ some f
  pub carries : (w : Fields → ℕ) → in_lines w b.hashlist ≡ in_lines w a.hashlist
  pub sorted : (limit : ℕ) → LinesSorted limit a.hashlist → LinesSorted limit b.hashlist

pub open_file-Opened :
    (m : File) (req : Request) (a : Agios)
    → length a.hashlist ≡ agios_hash_entries
    → ((h : ℕ) → IsLine (line h a))
    → (f : File) × (b : Agios) × (open_file
          (some m)
          req
          (get_hashtable_position (fields req).file_id)
          a
        ≡ some (f, b))
      × Opened req a f b
unfolding open_file find_req_file file_of
open_file-Opened m req a w old =
    let id = (fields req).file_id in
    let hash = get_hashtable_position id in
    let (r, run, isline, finds) = find_or_add-Finds m id (line hash a) (old hash) in
    let f = stamp_first req r.req_file in
    let same_id = handle-stamp_first req r.req_file ∙ finds.handle in
    let line' = set_file f r.line in
    let before = subst (λ k. find_file k r.line ≡ some r.req_file) (sym same_id) finds.found in
    let there =
      subst (λ k. find_file k line' ≡ some f) same_id
        (find_file-set_file f r.req_file r.line id before).0 in
    let inside =
      get_or-set_same a.hashlist hash line'
        (omega (arith, (get_hashtable_position_bounds id).0, w)) in
    let b = set_line hash line' a in
    (
      f,
      _,
      ap (λ o. opened req hash a (count_file a.counters.current_filenb o)) run,
      record {
        alg = refl;
        scheduler = refl;
        timeline = refl;
        reqnb = refl;
        width = length-set a.hashlist hash line';
        lines = set_line-lines a hash line' (set_file-IsLine f r.line isline) old;
        keeps = λ k h. elim (get_or-set_cases a.hashlist hash line' (get_hashtable_position k)) [
          | inl (e, p) ↦
              subst (λ fs. find_file k fs ≢ none) (sym p)
                (find_file-set_file_known f k r.line (
                  Finds-known id k (line hash a) r finds
                    (subst (λ i. find_file k (line i a) ≢ none) (sym e) h)))
          | inr p ↦ subst (λ fs. find_file k fs ≢ none) (sym p) h
        ];
        found = ap (find_file id) inside ∙ there;
        carries = λ w. omega (
          arith,
          in_lines-set w a.hashlist hash line' 0 (
              omega (
                arith,
                in_line-set_file w f r.req_file r.line before,
                in_file-stamp_first w req r.req_file,
                (find_or_add-Kept m id (line hash a) r run).carries w,
              )),
        );
        sorted = λ limit h.
            let kept =
              (find_or_add-Kept m id (line hash a) r run).sorted limit
                (get_or-LineSorted limit a.hashlist hash h) in
            set-LinesSorted_line limit a.hashlist hash line'
              (set_file-LineSorted limit f r.line
                (stamp_first-FileSorted limit req r.req_file
                  (find_file-LineSorted limit id r.req_file r.line finds.found kept))
                kept)
              h;
      },
    )
