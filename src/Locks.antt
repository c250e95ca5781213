-- ===== src/Locks.antt =====
-- data_structures.c: `lock_all_data_structures`, `unlock_all_data_structures` and
-- `acquire_adequate_lock`, with the callers that add, release or cancel a request and the thread that
-- changes the scheduler between the first two, as steps that interleave in any order. A lock that
-- others take without this function only delays these steps.
pub mod Adequate
use forwarding_explorer_agio.Prelude.{
  ℕ, suc, ◌<◌, ◌≡◌, ◌≢◌, Bool, true, false, Option, none, some, ◌==◌, ltb, leb, if◌then◌else◌,
}

pub data Lock : Type 0 where
  timeline : Lock
  line : ℕ → Lock

-- The lock that goes with a scheduler, for a file of line `hash`.
abbrev pub lock_of : (needs_hashtable : Bool) → (hash : ℕ) → Lock
lock_of true hash = line hash
lock_of false hash = timeline

-- Where a caller stands, with `previous_needs_hashtable` and the line of its file.
pub data Caller : Type 0 where
  outside : Caller
  -- at the head of the loop
  begins : (hash : ℕ) → Caller
  -- about to take the lock
  waits : (previous_needs_hashtable : Bool) → (hash : ℕ) → Caller
  -- with the lock, before the second look at the scheduler
  checks : (previous_needs_hashtable : Bool) → (hash : ℕ) → Caller
  -- after the return, until the caller gives the lock back
  holds : (previous_needs_hashtable : Bool) → (hash : ℕ) → Caller

-- The lock that a caller has.
abbrev pub has : Caller → Option Lock
has (checks b hash) = some (lock_of b hash)
has (holds b hash) = some (lock_of b hash)
has _ = none

-- Where the thread stands: `k` counts the rounds of the loop over the lines.
pub data Changer : Type 0 where
  elsewhere : Changer
  locking : (k : ℕ) → Changer
  unlocking : (k : ℕ) → Changer

-- Whether the thread has a lock.
abbrev pub owns : Changer → Lock → Bool
owns elsewhere l = false
owns (locking k) timeline = true
owns (locking k) (line i) = ltb i k
owns (unlocking k) timeline = true
owns (unlocking k) (line i) = leb k i

-- `needs_hashtable` is the field of `current_scheduler`.
pub record System : Type 0 where
  pub needs_hashtable : Bool
  pub callers : ℕ → Caller
  pub changer : Changer

abbrev pub update : (ℕ → Caller) → ℕ → Caller → ℕ → Caller
update f i v j = if j == i then v else f j

-- Nobody has the lock.
pub record IsFree (s : System) (l : Lock) : Type 0 where
  pub callers : (j : ℕ) → has (s.callers j) ≢ some l
  pub changer : owns s.changer l ≡ false

-- A step of a caller. `agios_hash_entries` is the number of lines.
pub data Move (agios_hash_entries : ℕ) (s : System) : Caller → Caller → Type 0 where
  call : {hash : ℕ} → hash < agios_hash_entries → Move agios_hash_entries s outside (begins hash)
  look : {hash : ℕ} → Move agios_hash_entries s (begins hash) (waits s.needs_hashtable hash)
  lock :
      {b : Bool} {hash : ℕ}
      → IsFree s (lock_of b hash)
      → Move agios_hash_entries s (waits b hash) (checks b hash)
  again :
      {b : Bool} {hash : ℕ}
      → b ≢ s.needs_hashtable
      → Move agios_hash_entries s (checks b hash) (begins hash)
  done :
      {b : Bool} {hash : ℕ}
      → b ≡ s.needs_hashtable
      → Move agios_hash_entries s (checks b hash) (holds b hash)
  unlock : {b : Bool} {hash : ℕ} → Move agios_hash_entries s (holds b hash) outside

-- A step of the thread. It changes the scheduler when it has all the locks.
pub data Walk (agios_hash_entries : ℕ) (s : System) : Changer → Bool → Changer → Type 0 where
  lock_timeline :
      IsFree s timeline → Walk agios_hash_entries s elsewhere s.needs_hashtable (locking 0)
  lock_line :
      {k : ℕ}
      → k < agios_hash_entries
      → IsFree s (line k)
      → Walk agios_hash_entries s (locking k) s.needs_hashtable (locking (suc k))
  change :
      (needs : Bool) → Walk agios_hash_entries s (locking agios_hash_entries) needs (unlocking 0)
  unlock_line :
      {k : ℕ}
      → k < agios_hash_entries
      → Walk agios_hash_entries s (unlocking k) s.needs_hashtable (unlocking (suc k))
  unlock_timeline :
      Walk agios_hash_entries s (unlocking agios_hash_entries) s.needs_hashtable elsewhere

pub data Step (agios_hash_entries : ℕ) (s : System) : System → Type 0 where
  caller :
      (i : ℕ) {c : Caller}
      → Move agios_hash_entries s (s.callers i) c
      → Step agios_hash_entries s (record s { callers = update s.callers i c })
  thread :
      {needs : Bool} {w : Changer}
      → Walk agios_hash_entries s s.changer needs w
      → Step agios_hash_entries s (record s { needs_hashtable = needs; changer = w })

-- Nobody is in the library at first.
abbrev pub init : Bool → System
init needs = record { needs_hashtable = needs; callers = λ i. outside; changer = elsewhere }

pub data Reach (agios_hash_entries : ℕ) (needs : Bool) : System → Type 0 where
  start : Reach agios_hash_entries needs (init needs)
  later :
      {s t : System}
      → Reach agios_hash_entries needs s
      → Step agios_hash_entries s t
      → Reach agios_hash_entries needs t
