-- ===== src/Placement/Sorted.antt =====
-- The queues of the hashtable stay sorted by offset, with requests that are well formed and within
-- `max_aggreg_size`.
use forwarding_explorer_agio.Prelude.{ℕ, ◌≤◌, arith, Bool-cases, inl, inr}
use forwarding_explorer_agio.Data.{Request, Requests, nil, cons, fields}
use forwarding_explorer_agio.Requests.{snoc, append}
use forwarding_explorer_agio.Aggregation.Shape.{IsShaped}
use forwarding_explorer_agio.Placement.{goes_after, find_place}

-- A queue that starts at `start` or later: sorted by offset, each request well formed and within
-- the limit.
abbrev pub IsQueue : ℕ → ℕ → Requests → Type 0
IsQueue limit start nil = Unit {0}
IsQueue limit start (cons r a) =
    (start ≤ (fields r).offset)
    × ((fields r).reqnb ≤ limit)
    × IsShaped r
    × IsQueue limit (fields r).offset a

-- The same of a part of a queue that ends before `end`.
abbrev pub Part : ℕ → ℕ → ℕ → Requests → Type 0
Part limit start end nil = start ≤ end
Part limit start end (cons r a) =
    (start ≤ (fields r).offset)
    × ((fields r).reqnb ≤ limit)
    × IsShaped r
    × Part limit (fields r).offset end a

pub IsQueue-mono : (limit s t : ℕ) (a : Requests) → s ≤ t → IsQueue limit t a → IsQueue limit s a
IsQueue-mono limit s t nil h q = tt
IsQueue-mono limit s t (cons r a) h q = (omega arith, q.1, q.2, q.3)

pub append-IsQueue :
    (limit s e : ℕ) (a b : Requests)
    → Part limit s e a
    → IsQueue limit e b
    → IsQueue limit s (append a b)
append-IsQueue limit s e nil b p q = IsQueue-mono limit s e b p q
append-IsQueue limit s e (cons r a) b p q =
    (p.0, p.1, p.2, append-IsQueue limit (fields r).offset e a b p.3 q)

-- The last request of a part, apart from the rest.
pub Part-snoc :
    (limit s e : ℕ) (a : Requests) (r : Request)
    → Part limit s e (snoc a r)
    → Part limit s (fields r).offset a
      × ((fields r).reqnb ≤ limit)
      × IsShaped r
      × ((fields r).offset ≤ e)
Part-snoc limit s e nil r p = (p.0, p.1, p.2, p.3)
Part-snoc limit s e (cons x a) r p =
    let rest = Part-snoc limit (fields x).offset e a r p.3 in
    ((p.0, p.1, p.2, rest.0), rest.1, rest.2, rest.3)

pub find_place-Part :
    (limit s : ℕ) (req : Request) (q : Requests)
    → s ≤ (fields req).offset
    → IsQueue limit s q
    → Part limit s (fields req).offset (find_place req q).before
      × IsQueue limit (fields req).offset (find_place req q).after
unfolding find_place goes_after
find_place-Part limit s req nil h p = (h, tt)
find_place-Part limit s req (cons tmp q) h p = elim (Bool-cases (goes_after tmp req)) [
  | inl stop ↦ rw stop (h, (ground arith, p.1, p.2, p.3))
  | inr go ↦
      let rest = find_place-Part limit (fields tmp).offset req q (ground arith) p.3 in
      rw go ((p.0, p.1, p.2, rest.0), rest.1)
]
