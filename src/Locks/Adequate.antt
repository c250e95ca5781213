-- ===== src/Locks/Adequate.antt =====
-- A caller that has returned from `acquire_adequate_lock` has the lock of the scheduler in use.
use forwarding_explorer_agio.Prelude.{
  ℕ, suc, ◌<◌, ◌≡◌, ◌≢◌, refl, sym, ap, ◌∙◌, Bool, true, false, some, ◌==◌, ==_iff, arith,
  Bool-cases, ◌⊎◌, inl, inr, if◌then◌else◌,
}
use forwarding_explorer_agio.Locks.{
  Lock, timeline, line, lock_of, Caller, outside, begins, waits, checks, holds, has, Changer,
  locking, unlocking, owns, System, update, IsFree, Move, call, look, lock, again, done, unlock,
  Walk, lock_timeline, lock_line, change, unlock_line, unlock_timeline, Step, caller, thread, init,
  Reach, start, later,
}
use mathlib.Core.Option.{none-ne-some, some-injective}
use mathlib.Core.Path.{subst}
use mathlib.Core.Bool.{true≢false}

-- The line of a caller's file exists.
abbrev InRange : ℕ → Caller → Type 0
InRange n outside = Unit {0}
InRange n (begins hash) = hash < n
InRange n (waits b hash) = hash < n
InRange n (checks b hash) = hash < n
InRange n (holds b hash) = hash < n

-- A caller that has returned has looked at the scheduler that is in use.
abbrev Agrees : Bool → Caller → Type 0
Agrees needs (holds b hash) = b ≡ needs
Agrees needs _ = Unit {0}

record Inv (n : ℕ) (s : System) : Type 0 where
  agrees : (i : ℕ) → Agrees s.needs_hashtable (s.callers i)
  range : (i : ℕ) → InRange n (s.callers i)
  apart : (i : ℕ) (l : Lock) → has (s.callers i) ≡ some l → owns s.changer l ≡ false
  alone : (i j : ℕ) (l : Lock) → has (s.callers i) ≡ some l → has (s.callers j) ≡ some l → i ≡ j

Inv-init : (n : ℕ) (needs : Bool) → Inv n (init needs)
Inv-init n needs = record {
  agrees = λ i. tt;
  range = λ i. tt;
  apart = λ i l e. refl;
  alone = λ i j l e f. absurd (none-ne-some l e);
}

-- What holds of the new place of a caller and of the old ones holds of all.
update-all :
    (P : Caller → Type 0) (f : ℕ → Caller) (i : ℕ) (c : Caller)
    → P c
    → ((j : ℕ) → P (f j))
    → (j : ℕ) → P (update f i c j)
update-all P f i c p h j = by (j == i)
  where
    by : (b : Bool) → P (if b then c else f j)
    by true = p
    by false = h j

-- A move takes no lock, or one that was free.
record Keeps (s : System) (old c : Caller) : Type 0 where
  agrees : Agrees s.needs_hashtable c
  locks : (l : Lock) → has c ≡ some l → (has old ≡ some l) ⊎ IsFree s l

Move-range : {n : ℕ} {s : System} {old c : Caller} → Move n s old c → InRange n old → InRange n c
Move-range (call h) r = h
Move-range look r = r
Move-range (lock f) r = r
Move-range (again e) r = r
Move-range (done e) r = r
Move-range unlock r = tt

Move-Keeps : {n : ℕ} {s : System} {old c : Caller} → Move n s old c → Keeps s old c
Move-Keeps (call h) = record { agrees = tt; locks = λ l e. absurd (none-ne-some l e) }
Move-Keeps look = record { agrees = tt; locks = λ l e. absurd (none-ne-some l e) }
Move-Keeps {s} (lock f) = record {
  agrees = tt;
  locks = λ l e. inr (subst (IsFree s) (some-injective _ _ e) f);
}
Move-Keeps (again e) = record { agrees = tt; locks = λ l e. absurd (none-ne-some l e) }
Move-Keeps (done e) = record { agrees = e; locks = λ l e. inl e }
Move-Keeps unlock = record { agrees = tt; locks = λ l e. absurd (none-ne-some l e) }

update-cases :
    (f : ℕ → Caller) (i : ℕ) (c : Caller) (j : ℕ)
    → ((j ≡ i) × (update f i c j ≡ c)) ⊎ (update f i c j ≡ f j)
update-cases f i c j = elim (Bool-cases (j == i)) [
  | inl e ↦ inl ((==_iff j i).0 e, ap (λ b. if b then c else f j) e)
  | inr e ↦ inr (ap (λ b. if b then c else f j) e)
]

-- The caller that moves and another one do not have the same lock.
Keeps-other :
    {n : ℕ} {s : System} {i j : ℕ} {c : Caller} {l : Lock}
    → Inv n s
    → Keeps s (s.callers i) c
    → has c ≡ some l
    → has (s.callers j) ≡ some l
    → i ≡ j
Keeps-other {i} {j} {l} h k e f = elim (k.locks l e) [
  | inl old ↦ h.alone i j l old f
  | inr free ↦ absurd (free.callers j f)
]

caller-Inv :
    {n : ℕ} {s : System} (i : ℕ) {c : Caller}
    → Inv n s
    → InRange n c
    → Keeps s (s.callers i) c
    → Inv n (record s { callers = update s.callers i c })
caller-Inv {n} {s} i {c} h r k = record {
  agrees = update-all (Agrees s.needs_hashtable) s.callers i c k.agrees h.agrees;
  range = update-all (InRange n) s.callers i c r h.range;
  apart = λ j l e. elim (update-cases s.callers i c j) [
    | inl (_, new) ↦ elim (k.locks l (sym (ap has new) ∙ e)) [
      | inl old ↦ h.apart i l old
      | inr free ↦ free.changer
    ]
    | inr old ↦ h.apart j l (sym (ap has old) ∙ e)
  ];
  alone = λ j m l e f. elim (update-cases s.callers i c j) [
    | inl (here, new) ↦ elim (update-cases s.callers i c m) [
      | inl (there, _) ↦ here ∙ sym there
      | inr old ↦ here ∙ Keeps-other h k (sym (ap has new) ∙ e) (sym (ap has old) ∙ f)
    ]
    | inr old ↦ elim (update-cases s.callers i c m) [
      | inl (there, new) ↦
          sym (Keeps-other h k (sym (ap has new) ∙ f) (sym (ap has old) ∙ e)) ∙ sym there
      | inr also ↦ h.alone j m l (sym (ap has old) ∙ e) (sym (ap has also) ∙ f)
    ]
  ];
}

-- When the thread has all locks, no caller has one.
has-owned :
    (n : ℕ) (c : Caller) (l : Lock) → InRange n c → has c ≡ some l → owns (locking n) l ≡ true
has-owned n (checks b hash) l r e =
    subst (λ x. owns (locking n) x ≡ true) (some-injective _ _ e) (all b)
  where
    all : (b : Bool) → owns (locking n) (lock_of b hash) ≡ true
    all true = ground arith
    all false = refl
has-owned n (holds b hash) l r e =
    subst (λ x. owns (locking n) x ≡ true) (some-injective _ _ e) (all b)
  where
    all : (b : Bool) → owns (locking n) (lock_of b hash) ≡ true
    all true = ground arith
    all false = refl
has-owned n outside l r e = absurd (none-ne-some l e)
has-owned n (begins hash) l r e = absurd (none-ne-some l e)
has-owned n (waits b hash) l r e = absurd (none-ne-some l e)

Agrees-any : (a b : Bool) (c : Caller) → ((l : Lock) → has c ≢ some l) → Agrees a c → Agrees b c
Agrees-any a b (holds d hash) h k = absurd (h (lock_of d hash) refl)
Agrees-any a b outside h k = tt
Agrees-any a b (begins hash) h k = tt
Agrees-any a b (waits d hash) h k = tt
Agrees-any a b (checks d hash) h k = tt

-- What a step of the thread owes the callers.
record Respects (s : System) (needs : Bool) (w : Changer) : Type 0 where
  agrees : (i : ℕ) → Agrees needs (s.callers i)
  apart : (i : ℕ) (l : Lock) → has (s.callers i) ≡ some l → owns w l ≡ false

owns-first : (l : Lock) → l ≢ timeline → owns (locking 0) l ≡ false
owns-first timeline h = absurd (h refl)
owns-first (line j) h = ground arith

owns-next :
    (k : ℕ) (l : Lock) → l ≢ line k → owns (locking k) l ≡ false → owns (locking (suc k)) l ≡ false
owns-next k timeline h e = e
owns-next k (line j) h e = let ne : j ≢ k = λ q. h (ap line q) in ground arith

owns-fewer : (k : ℕ) (l : Lock) → owns (unlocking k) l ≡ false → owns (unlocking (suc k)) l ≡ false
owns-fewer k timeline e = e
owns-fewer k (line j) e = ground arith

Walk-Respects :
    {n : ℕ} {s : System} {old w : Changer} {needs : Bool}
    → Walk n s old needs w
    → ((i : ℕ) → InRange n (s.callers i))
    → Respects s s.needs_hashtable old
    → Respects s needs w
Walk-Respects {s} (lock_timeline free) r h = record {
  agrees = h.agrees;
  apart = λ i l e. owns-first l (λ q. free.callers i (e ∙ ap some q));
}
Walk-Respects {s} (lock_line {k} lt free) r h = record {
  agrees = h.agrees;
  apart = λ i l e. owns-next k l (λ q. free.callers i (e ∙ ap some q)) (h.apart i l e);
}
Walk-Respects {n} {s} (change needs) r h =
    let nobody : (i : ℕ) (l : Lock) → has (s.callers i) ≢ some l =
      λ i l e. true≢false (sym (has-owned n (s.callers i) l (r i) e) ∙ h.apart i l e) in
    record {
      agrees = λ i. Agrees-any s.needs_hashtable needs (s.callers i) (nobody i) (h.agrees i);
      apart = λ i l e. absurd (nobody i l e);
    }
Walk-Respects (unlock_line {k} lt) r h = record {
  agrees = h.agrees;
  apart = λ i l e. owns-fewer k l (h.apart i l e);
}
Walk-Respects unlock_timeline r h = record { agrees = h.agrees; apart = λ i l e. refl }

Step-Inv : {n : ℕ} {s t : System} → Step n s t → Inv n s → Inv n t
Step-Inv (caller i m) h = caller-Inv i h (Move-range m (h.range i)) (Move-Keeps m)
Step-Inv (thread w) h =
    let k = Walk-Respects w h.range (record { agrees = h.agrees; apart = h.apart }) in
    record { agrees = k.agrees; range = h.range; apart = k.apart; alone = h.alone }

Reach-Inv : {n : ℕ} {needs : Bool} {s : System} → Reach n needs s → Inv n s
Reach-Inv {n} {needs} start = Inv-init n needs
Reach-Inv (later r step) = Step-Inv step (Reach-Inv r)

-- In every state that is reached, a caller that has returned from `acquire_adequate_lock` has the
-- lock of the data structure that the scheduler in use needs, no other caller has it, and neither
-- has the thread that changes the scheduler: so the scheduler stays until the lock is given back.
pub holds-lock_of :
    (agios_hash_entries : ℕ) (needs : Bool) (s : System) (i : ℕ) (previous_needs_hashtable : Bool)
    (hash : ℕ)
    → Reach agios_hash_entries needs s
    → s.callers i ≡ holds previous_needs_hashtable hash
    → (previous_needs_hashtable ≡ s.needs_hashtable)
      × (has (s.callers i) ≡ some (lock_of s.needs_hashtable hash))
      × ((j : ℕ) → has (s.callers j) ≡ some (lock_of s.needs_hashtable hash) → i ≡ j)
      × (owns s.changer (lock_of s.needs_hashtable hash) ≡ false)
holds-lock_of n needs s i b hash reach at =
    let h = Reach-Inv reach in
    let same : b ≡ s.needs_hashtable = subst (Agrees s.needs_hashtable) at (h.agrees i) in
    let mine = ap has at ∙ ap (λ x. some (lock_of x hash)) same in
    (same, mine, λ j e. h.alone i j _ mine e, h.apart i _ mine)
