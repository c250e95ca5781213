-- ===== src/Fifo/Oldest.antt =====
-- The search of aIOLi.c selects the oldest candidate.
use forwarding_explorer_agio.Prelude.{ℕ, Option, none, some, List}
use forwarding_explorer_agio.Data.{File}
use forwarding_explorer_agio.Fifo.{int_max, Selected}
use forwarding_explorer_agio.Fifo.Parts.{LinesNotBefore, LinesOffer}

-- What the search answers: with a selected queue, a file that does not wait offers its first request,
-- and no file offers an older one; without, no file offers a request older than INT_MAX.
abbrev pub IsOldest :
    (quantum : ℕ) → (now : ℕ → ℕ) → List (List File) → Option Selected → (m : ℕ) → Type 0
IsOldest quantum now ls none m = LinesNotBefore quantum now 0 int_max ls
IsOldest quantum now ls (some c) m =
    LinesOffer quantum now 0 c m ls × LinesNotBefore quantum now 0 m ls
