-- ===== src/Aioli/Batch.antt =====
-- The loop of aIOLi.c over the requests of a queue takes the longest prefix that the quantum covers,
-- and one request in any case.
use forwarding_explorer_agio.Prelude.{
  ℕ, suc, ◌+◌, ◌-◌, ◌^◌, ◌<◌, ◌≡◌, refl, sym, ap, ◌∙◌, Bool, true, false, ◌&&◌, not, Option, some,
  ◌++◌, arith, Bool-cases, inl, inr, if◌then◌else◌, ◌==◌, ltb, leb,
}
use forwarding_explorer_agio.Prelude.Int.{pos, ltb_ℤ, ◌-ℤ◌}
use forwarding_explorer_agio.Aggregation.Shape.{IsShaped}
use forwarding_explorer_agio.Aioli.{
  Service, add_used, note, take_request, goes_on, is_too_large, then_take, take_more, take_requests,
}
use forwarding_explorer_agio.Cancel.Queues.{AllShaped}
use forwarding_explorer_agio.Data.{Fields, Request, Requests, nil, cons, fields, File, rt_read}
use forwarding_explorer_agio.Dispatch.{set_list}
use forwarding_explorer_agio.Dispatch.FromShortest.{file-step1, in_file-set_list, handle-set_list}
use forwarding_explorer_agio.Loops.Draining.{held, identifiers}
use forwarding_explorer_agio.Migration.ToTimeline.{in_file}
use forwarding_explorer_agio.Process.{on_queue, queue_of, user_ids, parts}
use forwarding_explorer_agio.Process.Delivery.{
  delivered, process-delivers, minus_zero, minus_minus, append-nil_ids, sum_len,
}
use forwarding_explorer_agio.Requests.{append, total, total-cons, total-nil}
use forwarding_explorer_agio.Timeline.{to_int32}
use forwarding_explorer_agio.Waiting.{waiting_algorithms_postprocess}
use forwarding_explorer_agio.Waiting.Progress.{all_calls}
use forwarding_explorer_agio.Waiting.Lists.{
  SameLists, SameLists-trans, in_file-SameLists, dispatch_all-SameLists, postprocess-SameLists,
  all_calls-snoc,
}
use mathlib.Core.List.{append_assoc}
use mathlib.Core.Path.{subst}

-- The requests at the head of a queue that `left` bytes of quantum cover, and the others.
abbrev pub fitting : (left : ℕ) → Requests → Requests
fitting left nil = nil
fitting left (cons r q) =
    let more = fitting (left - (fields r).len) q in
    if ltb 0 left && leb (fields r).len left then cons r more else nil

abbrev pub beyond : (left : ℕ) → Requests → Requests
beyond left nil = nil
beyond left (cons r q) =
    let more = beyond (left - (fields r).len) q in
    if ltb 0 left && leb (fields r).len left then more else cons r q

-- The two parts are the whole queue.
pub append-fitting-beyond : (left : ℕ) (q : Requests) → append (fitting left q) (beyond left q) ≡ q
append-fitting-beyond left nil = refl
append-fitting-beyond left (cons r q) =
    let more = append-fitting-beyond (left - (fields r).len) q in ground arith

-- Between two points of the loop the requests `taken` have left the queue for `type`, which holds
-- `rest` now.
pub record Took (b : Bool) (type : ℕ) (s s' : Service) (taken rest : Requests) : Type 0 where
  pub told :
      delivered (all_calls b s'.info_list)
      ≡ delivered (all_calls b s.info_list) ++ identifiers taken
  pub reqnb : s'.counters.current_reqnb ≡ s.counters.current_reqnb -ℤ pos (held taken)
  pub list : (queue_of type s'.file).list ≡ rest
  pub carries : (w : Fields → ℕ) → in_file w s'.file + total w taken ≡ in_file w s.file
  pub handle : s'.file.file_id ≡ s.file.file_id
  pub used : s'.used_quantum ≡ s.used_quantum + sum_len taken

list-queue_of :
    (type : ℕ) (f g : File) → SameLists f g → (queue_of type f).list ≡ (queue_of type g).list
list-queue_of type f g s = by (type == rt_read)
  where
    by :
        (b : Bool)
        → (if b then f.read_queue else f.write_queue).list
          ≡ (if b then g.read_queue else g.write_queue).list
    by true = s.reads
    by false = s.writes

list-set_list : (type : ℕ) (q : Requests) (f : File) → (queue_of type (set_list type q f)).list ≡ q
list-set_list type q f = ground arith

handle-waiting_algorithms_postprocess :
    (r : Request) (type : ℕ) (f : File)
    → (on_queue type (waiting_algorithms_postprocess r) f).file_id ≡ f.file_id
handle-waiting_algorithms_postprocess r type f = ground arith

take_request-Took :
    (b : Bool) (hash now type : ℕ) (r : Request) (q : Requests) (s : Service)
    → IsShaped r
    → (queue_of type s.file).list ≡ cons r q
    → s.used_quantum + (fields r).len < 2 ^ 32
    → (s' : Service) × (take_request hash now type r q s ≡ some s')
      × Took b type s s' (cons r nil) q
unfolding take_request add_used
take_request-Took b hash now type r q s shape list small =
    let g = set_list type q s.file in
    let (t, run, told, dispatched, _, reqnb, _, _) =
      process-delivers b r hash now g s.counters shape in
    let same = SameLists-trans _ _ _ (postprocess-SameLists r (fields r).type t.file) (
      subst (λ x. SameLists x g) (sym (file-step1 r hash now g s.counters t run))
        (dispatch_all-SameLists (parts r) now (fields r).type g)) in
    (
      _,
      ap (note type r s) run,
      record {
        told =
            all_calls-snoc b s.info_list t.info
            ∙ ap (λ x. delivered (all_calls b s.info_list) ++ x)
                (told ∙ sym (append-nil_ids (user_ids (parts r))));
        reqnb = reqnb ∙ ap (λ n. s.counters.current_reqnb -ℤ pos n) (omega arith);
        list = list-queue_of type _ g same ∙ list-set_list type q s.file;
        carries = λ w. omega (
          arith,
          in_file-SameLists w _ g same,
          in_file-set_list w r q type s.file list,
          total-cons w r nil,
          total-nil w,
        );
        handle =
            handle-waiting_algorithms_postprocess r (fields r).type t.file
            ∙ dispatched.handle
            ∙ handle-set_list type q s.file;
        used = ground arith;
      },
    )

no-Took :
    (b : Bool) (type : ℕ) (s : Service) (q : Requests)
    → (queue_of type s.file).list ≡ q
    → Took b type s s nil q
no-Took b type s q list = record {
  told = sym (append-nil_ids _);
  reqnb = minus_zero s.counters.current_reqnb;
  list = list;
  carries = λ w. omega (arith, total-nil w);
  handle = refl;
  used = omega arith;
}

Took-cons :
    (b : Bool) (type : ℕ) (s t u : Service) (r : Request) (q taken rest : Requests)
    → Took b type s t (cons r nil) q
    → Took b type t u taken rest
    → Took b type s u (cons r taken) rest
Took-cons b type s t u r q taken rest h k = record {
  told =
      k.told
      ∙ ap (λ x. x ++ identifiers taken)
          (h.told ∙ ap (λ x. delivered (all_calls b s.info_list) ++ x) (append-nil_ids _))
      ∙ append_assoc (delivered (all_calls b s.info_list)) (user_ids (parts r)) (identifiers taken);
  reqnb = minus_minus _ _ _ _ _ _ k.reqnb h.reqnb (omega arith);
  list = k.list;
  carries = λ w.
      omega
        (arith, h.carries w, k.carries w, total-cons w r nil, total-nil w, total-cons w r taken);
  handle = k.handle ∙ h.handle;
  used = k.used ∙ ap (λ n. n + sum_len taken) h.used ∙ omega arith;
}

to_int32_small : (n : ℕ) → n < 2 ^ 31 → to_int32 n ≡ pos n
to_int32_small n h = ground arith

-- The two tests of the loop, on numbers that have not wrapped around.
goes_on-ltb :
    (current : ℕ) (r : Request) (q : Requests) (s : Service)
    → s.used_quantum < 2 ^ 31
    → goes_on current (cons r q) s ≡ ltb 0 (current - s.used_quantum)
goes_on-ltb current r q s h =
    ap (λ z. ltb_ℤ z (pos current)) (to_int32_small s.used_quantum h) ∙ ground arith

is_too_large-leb :
    (current : ℕ) (r : Request) (s : Service)
    → s.used_quantum < 2 ^ 31
    → ltb 0 (current - s.used_quantum) ≡ true
    → is_too_large current r s ≡ not (leb (fields r).len (current - s.used_quantum))
unfolding ◌-ℤ◌
is_too_large-leb current r s h more =
    ap (λ z. ltb_ℤ (pos current -ℤ z) (pos (fields r).len)) (to_int32_small s.used_quantum h)
    ∙ ground arith

-- The rest of the loop, on a queue that holds `q`.
abbrev TookMore : Bool → (type current : ℕ) → Requests → Service → Option Service → Type 0
TookMore b type current q s o =
    (s' : Service) × (o ≡ some s')
    × Took b type s s' (fitting (current - s.used_quantum) q) (beyond (current - s.used_quantum) q)

take_more-Took :
    (b : Bool) (now : ℕ → ℕ) (k hash type current : ℕ) (q : Requests) (s : Service)
    → AllShaped q
    → (queue_of type s.file).list ≡ q
    → s.used_quantum + sum_len q < 2 ^ 31
    → TookMore b type current q s (take_more now k hash type current q s)
unfolding take_more
take_more-Took b now k hash type current nil s shaped list small =
    (s, refl, no-Took b type s nil list)
take_more-Took b now k hash type current (cons r q) s shaped list small =
    let left = current - s.used_quantum in
    let used_small : s.used_quantum < 2 ^ 31 = omega arith in
    let (t, run, one) = take_request-Took b hash (now k) type r q s shaped.0 list (omega arith) in
    let used : t.used_quantum ≡ s.used_quantum + (fields r).len = one.used ∙ omega arith in
    let (u, runs, others) =
      take_more-Took b now (suc k) hash type current q t shaped.1 one.list (omega arith) in
    let budget : current - t.used_quantum ≡ left - (fields r).len = omega arith in
    let goes = goes_on-ltb current r q s used_small in
    elim (Bool-cases (ltb 0 left)) [
      | inr over ↦ rw (goes, over) (s, refl, no-Took b type s (cons r q) list)
      | inl more ↦
          let large = is_too_large-leb current r s used_small more in
          elim (Bool-cases (leb (fields r).len left)) [
            | inr too_large ↦
                rw (goes, more, large, too_large) (s, refl, no-Took b type s (cons r q) list)
            | inl fits ↦
                rw (goes, more, large, fits)
                  (
                    u,
                    ap (λ o. then_take o (λ t. take_more now (suc k) hash type current q t)) run
                        ∙ runs,
                    Took-cons b type s t u r q _ _ one
                        (subst (λ n. Took b type t u (fitting n q) (beyond n q)) budget others),
                  )
          ]
    ]

-- The loop of aIOLi over a queue, with a file whose queue for `type` holds `cons r q`: where all of its
-- requests are well formed and together have less than 2 GB, it succeeds. It takes the first request,
-- however large, and then exactly the longest prefix of the others that the rest of the quantum covers;
-- what it takes leaves the queue and the counter, and the list for step 2 has each of these requests
-- once and in the order of the queue.
pub take_requests-fitting :
    (b : Bool) (now : ℕ → ℕ) (hash type current : ℕ) (r : Request) (q : Requests) (s : Service)
    → AllShaped (cons r q)
    → (queue_of type s.file).list ≡ cons r q
    → s.used_quantum ≡ 0
    → sum_len (cons r q) < 2 ^ 31
    → (s' : Service) × (take_requests now hash type current (cons r q) s ≡ some s')
      × Took b type s s'
          (cons r (fitting (current - (fields r).len) q))
          (beyond (current - (fields r).len) q)
unfolding take_requests
take_requests-fitting b now hash type current r q s shaped list start small =
    let (t, run, one) = take_request-Took b hash (now 0) type r q s shaped.0 list (omega arith) in
    let used : t.used_quantum ≡ (fields r).len = one.used ∙ omega arith in
    let (u, runs, others) =
      take_more-Took b now 1 hash type current q t shaped.1 one.list (omega arith) in
    (
      u,
      ap (λ o. then_take o (λ t. take_more now 1 hash type current q t)) run ∙ runs,
      Took-cons b type s t u r q _ _ one (
          subst (λ n. Took b type t u (fitting (current - n) q) (beyond (current - n) q)) used
            others),
    )
