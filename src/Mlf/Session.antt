-- ===== src/Mlf/Session.antt =====
-- A session under MLF: agios_add_request is called any number of times, and the loop of MLF.c runs.
use forwarding_explorer_agio.Prelude.{
  ℕ, ◌+◌, ◌*◌, ◌<◌, ◌≡◌, refl, ap, ◌∙◌, List, [], ◌∷◌, ◌++◌, length, arith,
}
use forwarding_explorer_agio.Prelude.Int.{ℤ, pos, pos_part, ◌-ℤ◌, int_laws}
use forwarding_explorer_agio.Aggregation.Shape.{Members, IsShaped}
use forwarding_explorer_agio.Cancel.Queues.{AllShaped}
use forwarding_explorer_agio.Data.{request, Request, Requests, nil, cons, fields, File}
use forwarding_explorer_agio.Entry.{Arrival, added}
use forwarding_explorer_agio.Entry as Entry
use forwarding_explorer_agio.Hash.{agios_hash_entries}
use forwarding_explorer_agio.Loops.Draining.{held, identifiers}
use forwarding_explorer_agio.Loops.Filling.{queued, IsFilled, add_all-IsFilled}
use forwarding_explorer_agio.Loops.Session.{add_all, Grants}
use forwarding_explorer_agio.Migration.Lines.{LineSorted, LinesSorted}
use forwarding_explorer_agio.Migration.ToTimeline.{LineShaped, LinesShaped}
use forwarding_explorer_agio.Mlf.{Mlf, Environment, mlf}
use forwarding_explorer_agio.Mlf.Ends.{Returned, mlf-delivered}
use forwarding_explorer_agio.Mlf.Lines.{Quiet}
use forwarding_explorer_agio.Placement.Sorted.{IsQueue}
use forwarding_explorer_agio.Process.{user_ids, parts}
use forwarding_explorer_agio.Process.Delivery.{delivered, length-user_ids, count-parts}
use forwarding_explorer_agio.Requests.{count, total, total-cons, total-nil, weight}
use forwarding_explorer_agio.State.{Agios}
use mathlib.Core.Path.{subst}

-- A well-formed request counts the requests that users added to it.
total-Members : (start : ℕ) (a : Requests) → Members start a → total (λ f. 1) a ≡ count a
unfolding total weight
total-Members start nil h = refl
total-Members start (cons (request f nil) a) h = omega (arith, total-Members start a h.2)
total-Members start (cons (request f (cons r b)) a) h = absurd (h.0)

pub weight-IsShaped : (r : Request) → IsShaped r → weight (λ f. 1) r ≡ (fields r).reqnb
unfolding weight
weight-IsShaped (request f nil) h = omega arith
weight-IsShaped (request f (cons r a)) h =
    omega (arith, total-Members f.offset (cons r a) h.2, total-cons (λ f. 1) r a)

total-held : (q : Requests) → AllShaped q → total (λ f. 1) q ≡ held q
total-held nil h = total-nil (λ f. 1)
total-held (cons r q) h =
    omega (arith, total-cons (λ f. 1) r q, weight-IsShaped r h.0, total-held q h.1)

length-++_ids : (a b : List ℕ) → length (a ++ b) ≡ length a + length b
length-++_ids [] b = omega arith
length-++_ids (x ∷ a) b = omega (arith, length-++_ids a b)

-- Each request of a well-formed queue has one identifier.
length-identifiers : (q : Requests) → AllShaped q → length (identifiers q) ≡ held q
length-identifiers nil h = refl
length-identifiers (cons r q) h = omega (
  arith,
  length-++_ids (user_ids (parts r)) (identifiers q),
  length-user_ids (parts r),
  count-parts r h.0,
  length-identifiers q h.1,
)

IsQueue-AllShaped : (limit start : ℕ) (q : Requests) → IsQueue limit start q → AllShaped q
IsQueue-AllShaped limit start nil h = tt
IsQueue-AllShaped limit start (cons r q) h = (h.2, IsQueue-AllShaped limit (fields r).offset q h.3)

LineSorted-LineShaped : (limit : ℕ) (fs : List File) → LineSorted limit fs → LineShaped fs
LineSorted-LineShaped limit [] h = tt
LineSorted-LineShaped limit (f ∷ fs) h = (
  IsQueue-AllShaped limit 0 f.read_queue.list h.0.0,
  IsQueue-AllShaped limit 0 f.write_queue.list h.0.1,
  LineSorted-LineShaped limit fs h.1,
)

LinesSorted-LinesShaped :
    (limit : ℕ) (ls : List (List File)) → LinesSorted limit ls → LinesShaped ls
LinesSorted-LinesShaped limit [] h = tt
LinesSorted-LinesShaped limit (l ∷ ls) h =
    (LineSorted-LineShaped limit l h.0, LinesSorted-LinesShaped limit ls h.1)

left_over : (z y : ℤ) (n k m : ℕ) → z ≡ pos n → y ≡ z -ℤ pos k → m + k ≡ n → y ≡ pos m
left_over z y n k m e h s = h ∙ ap (λ x. x -ℤ pos k) e ∙ rest n k m s
  where
    rest : (n k m : ℕ) → m + k ≡ n → pos n -ℤ pos k ≡ pos m
    rest n k m s = omega int_laws

-- A run of the loop of MLF that returns: `before` requests are either told to the user or still in the
-- hashtable, and the counter counts the latter.
pub record Conserved (d : Agios) (n before : ℕ) (e : Environment) (m : Mlf) : Type 0 where
  pub run : Returned d (mlf n e m d)
  pub told : delivered (run.calls) ≡ identifiers (run.sent)
  pub conserved : queued run.agios + length (delivered run.calls) ≡ before
  pub counted : run.agios.counters.current_reqnb ≡ pos (queued run.agios)

mlf-Conserved :
    (n : ℕ) (e : Environment) (m : Mlf) (d : Agios)
    → IsFilled d
    → m.mlf_current_hash < agios_hash_entries
    → 64 * queued d < n
    → ((i : ℕ) → Quiet (e.stops i))
    → Conserved d n (queued d) e m
mlf-Conserved n e m d filled below fuel quiet_calls =
    let fuel' : 64 * pos_part d.counters.current_reqnb < n =
      omega (arith, ap pos_part filled.counted) in
    let (r, told) =
      mlf-delivered n e m d below (LinesSorted-LinesShaped _ d.hashlist filled.sorted) fuel'
        quiet_calls in
    let ones = total-held r.sent r.left.whole in
    let carries = r.left.carries (λ f. 1) in
    record {
      run = r;
      told = told;
      conserved =
          omega (arith, ap length told, length-identifiers r.sent r.left.whole, ones, carries);
      counted =
          left_over d.counters.current_reqnb _ (queued d) (held r.sent) (queued r.agios)
            filled.counted r.left.reqnb (omega (arith, ones, carries));
    }

-- A session under MLF: from a state between two calls, every call of agios_add_request that is given
-- memory succeeds, in any number and for any files, and the loop of MLF, run then with 64 rounds for
-- each request and not told to stop, returns whatever lines other threads hold. The requests it has
-- told the user and those still in the hashtable are then as many as were waiting and were added, and
-- the counter of requests is the number of those still in the hashtable.
pub mlf-agios_add_request :
    (calls : List (Entry.Environment × Arrival)) (a : Agios) (n : ℕ) (e : Environment) (m : Mlf)
    → Grants calls
    → IsFilled a
    → m.mlf_current_hash < agios_hash_entries
    → 64 * (queued a + length calls) < n
    → ((i : ℕ) → Quiet (e.stops i))
    → (d : Agios) × (add_all calls a ≡ added d []) × Conserved d n (queued a + length calls) e m
mlf-agios_add_request calls a n e m grants filled below fuel quiet_calls =
    let (d, run, ready, more) = add_all-IsFilled calls a grants filled in
    (
      d,
      run,
      subst (λ k. Conserved d n k e m) more
          (mlf-Conserved n e m d ready below (omega arith) quiet_calls),
    )
