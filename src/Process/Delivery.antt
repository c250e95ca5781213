-- ===== src/Process/Delivery.antt =====
-- What the two steps of process_request.c do to the dispatch queue, the sizes and the counters, and
-- what the user is told.
use forwarding_explorer_agio.Prelude.{
  ℕ, zero, suc, ◌+◌, ◌≤◌, ◌<◌, ◌≡◌, ◌≢◌, refl, ap, get_or, sym, ◌∙◌, Bool, true, false, some, List,
  [], ◌∷◌, ◌++◌, ◌==◌, length, take, ltb, if◌then◌else◌, Bool-cases, inl, inr, arith,
}
use forwarding_explorer_agio.Prelude.Int.{ℤ, pos, ◌-ℤ◌, int_laws}
use forwarding_explorer_agio.Data.{Request, request, Requests, nil, cons, fields, File}
use forwarding_explorer_agio.Files.{is_zero}
use forwarding_explorer_agio.Requests.{snoc, append, append-snoc, append-nil, count}
use forwarding_explorer_agio.Aggregation.Shape.{IsShaped, IsShaped-reqnb}
use forwarding_explorer_agio.Process.{
  Counters, modify, queue_of, stamped, put_this_request_in_dispatch, dispatch_all, user_ids, parts,
  Step1, process_requests_step1, settle_files, dec_many_current_reqnb, dec_current_filenb,
  process_requests_step2, Callback, process_request_cb, process_requests_cb, each_call,
}

-- The requests as they stand in the dispatch queue.
abbrev pub stamp_all : ℕ → Requests → Requests
stamp_all t nil = nil
stamp_all t (cons r rs) = cons (stamped t r) (stamp_all t rs)

abbrev pub sum_len : Requests → ℕ
sum_len nil = 0
sum_len (cons r rs) = (fields r).len + sum_len rs

-- `f` after `rs` have been dispatched from its queue for `type`.
pub record Dispatched (rs : Requests) (t type : ℕ) (f f' : File) : Type 0 where
  pub dispatch : (queue_of type f').dispatch ≡ append (queue_of type f).dispatch (stamp_all t rs)
  pub size : (queue_of type f').current_size ≡ (queue_of type f).current_size -ℤ pos (sum_len rs)
  pub queued : (queue_of type f').list ≡ (queue_of type f).list
  pub reqnb : f'.timeline_reqnb ≡ f.timeline_reqnb -ℤ pos (count rs)
  pub handle : f'.file_id ≡ f.file_id

pub minus_zero : (a : ℤ) → a ≡ a -ℤ pos 0
minus_zero a = omega int_laws

pub minus_minus :
    (a b c : ℤ) (m n k : ℕ) → c ≡ b -ℤ pos n → b ≡ a -ℤ pos m → k ≡ m + n → c ≡ a -ℤ pos k
minus_minus a b c m n k p q e = p ∙ ap (λ z. z -ℤ pos n) q ∙ regroup
  where
    regroup : a -ℤ pos m -ℤ pos n ≡ a -ℤ pos k
    regroup = omega int_laws

append_one : (a : Requests) (r : Request) → append a (cons r nil) ≡ snoc a r
append_one nil r = refl
append_one (cons x a) r = ap (cons x) (append_one a r)

put-Dispatched :
    (r : Request) (t type : ℕ) (f : File)
    → Dispatched (cons r nil) t type f (put_this_request_in_dispatch r t type f)
unfolding put_this_request_in_dispatch
put-Dispatched r t type f = record {
  dispatch = rw append_one (ground arith);
  size = ground (arith, minus_len);
  queued = ground arith;
  reqnb = ground arith;
  handle = ground arith;
}
  where
    minus_len : (a : ℤ) → a -ℤ pos (fields r).len ≡ a -ℤ pos ((fields r).len + 0)
    minus_len a = omega int_laws

dispatch_all-Dispatched :
    (rs : Requests) (t type : ℕ) (f : File) → Dispatched rs t type f (dispatch_all rs t type f)
unfolding dispatch_all
dispatch_all-Dispatched nil t type f = record {
  dispatch = sym (append-nil (queue_of type f).dispatch);
  size = minus_zero (queue_of type f).current_size;
  queued = refl;
  reqnb = minus_zero f.timeline_reqnb;
  handle = refl;
}
dispatch_all-Dispatched (cons r rs) t type f =
    let f' = put_this_request_in_dispatch r t type f in
    let a = put-Dispatched r t type f in
    let b = dispatch_all-Dispatched rs t type f' in
    record {
      dispatch =
          b.dispatch
          ∙ ap (λ d. append d (stamp_all t rs)) (a.dispatch ∙ append_one _ (stamped t r))
          ∙ append-snoc (queue_of type f).dispatch (stamped t r) (stamp_all t rs);
      size = minus_minus _ _ _ _ _ _ b.size a.size (omega arith);
      queued = b.queued ∙ a.queued;
      reqnb = minus_minus _ _ _ _ _ _ b.reqnb a.reqnb (omega arith);
      handle = b.handle ∙ a.handle;
    }

-- The identifiers that the user is given, in the order of the calls.
abbrev pub delivered : List Callback → List ℕ
delivered [] = []
delivered (process_request_cb x ∷ cs) = x ∷ delivered cs
delivered (process_requests_cb xs n ∷ cs) = take n xs ++ delivered cs

delivered-each_call : (n : ℕ) (xs : List ℕ) → length xs ≡ n → delivered (each_call n xs) ≡ xs
unfolding each_call
delivered-each_call zero [] e = refl
delivered-each_call zero (x ∷ xs) e = absurd (omega arith)
delivered-each_call (suc n) [] e = refl
delivered-each_call (suc n) (x ∷ xs) e = ap (◌∷◌ x) (delivered-each_call n xs (omega arith))

take_all : (xs : List ℕ) → take (length xs) xs ≡ xs
take_all [] = refl
take_all (x ∷ xs) = ap (◌∷◌ x) (take_all xs)

pub append-nil_ids : (xs : List ℕ) → xs ++ [] ≡ xs
append-nil_ids [] = refl
append-nil_ids (x ∷ xs) = ap (◌∷◌ x) (append-nil_ids xs)

-- Step 2 tells the user each identifier once and in order, by whichever callback.
pub delivered-step2 :
    (b : Bool) (xs : List ℕ)
    → 1 ≤ length xs
    → delivered (process_requests_step2 b (record { user_ids = xs; reqnb = length xs })) ≡ xs
unfolding process_requests_step2
delivered-step2 b [] h = absurd (omega arith)
delivered-step2 b (x ∷ []) h = refl
delivered-step2 b (x ∷ y ∷ xs) h =
    let many : (suc (suc (length xs)) == 1) ≡ false = ground arith in
    elim (Bool-cases b) [
      | inl list ↦ rw (many, list) (append-nil_ids _ ∙ take_all (x ∷ y ∷ xs))
      | inr single ↦
          rw (many, single) (delivered-each_call (suc (suc (length xs))) (x ∷ y ∷ xs) refl)
    ]

pub length-user_ids : (a : Requests) → length (user_ids a) ≡ count a
length-user_ids nil = refl
length-user_ids (cons r a) = ap suc (length-user_ids a)

pub count-parts : (head : Request) → IsShaped head → count (parts head) ≡ (fields head).reqnb
unfolding parts
count-parts (request f nil) h = ground arith
count-parts (request f (cons r a)) h = ground arith

reqnb-settle_files : (z : ℤ) (c : Counters) → (settle_files z c).current_reqnb ≡ c.current_reqnb
unfolding dec_current_filenb
reqnb-settle_files z c = ground arith

-- The counters of the lines, of which line `hash` has lost `n` requests.
pub record CountsLine (hash n : ℕ) (c d : Counters) : Type 0 where
  pub width : length d.hashlist_reqcounter ≡ length c.hashlist_reqcounter
  pub own :
      hash < length c.hashlist_reqcounter
      → get_or d.hashlist_reqcounter hash (pos 0)
        ≡ get_or c.hashlist_reqcounter hash (pos 0) -ℤ pos n
  pub others :
      (j : ℕ)
      → j ≢ hash
      → get_or d.hashlist_reqcounter j (pos 0) ≡ get_or c.hashlist_reqcounter j (pos 0)

length-modify : (i : ℕ) (f : ℤ → ℤ) (xs : List ℤ) → length (modify i f xs) ≡ length xs
length-modify i f [] = refl
length-modify zero f (x ∷ xs) = refl
length-modify (suc i) f (x ∷ xs) = ap suc (length-modify i f xs)

get_or-modify :
    (i : ℕ) (f : ℤ → ℤ) (xs : List ℤ)
    → i < length xs
    → get_or (modify i f xs) i (pos 0) ≡ f (get_or xs i (pos 0))
get_or-modify i f [] h = absurd (omega arith)
get_or-modify zero f (x ∷ xs) h = refl
get_or-modify (suc i) f (x ∷ xs) h = get_or-modify i f xs (omega arith)

get_or-modify_other :
    (i : ℕ) (f : ℤ → ℤ) (xs : List ℤ) (j : ℕ)
    → j ≢ i
    → get_or (modify i f xs) j (pos 0) ≡ get_or xs j (pos 0)
get_or-modify_other i f [] j ne = refl
get_or-modify_other zero f (x ∷ xs) zero ne = absurd (ne refl)
get_or-modify_other zero f (x ∷ xs) (suc j) ne = refl
get_or-modify_other (suc i) f (x ∷ xs) zero ne = refl
get_or-modify_other (suc i) f (x ∷ xs) (suc j) ne =
    get_or-modify_other i f xs j (λ e. ne (ap suc e))

lines-settle_files :
    (z : ℤ) (c : Counters) → (settle_files z c).hashlist_reqcounter ≡ c.hashlist_reqcounter
unfolding dec_current_filenb
lines-settle_files z c = ground arith

filenb-settle_files :
    (z : ℤ) (c : Counters)
    → (settle_files z c).current_filenb
      ≡ (if is_zero z then c.current_filenb -ℤ pos 1 else c.current_filenb)
unfolding dec_current_filenb
filenb-settle_files z c = ground arith

dec_many_current_reqnb-CountsLine :
    (hash n : ℕ) (c : Counters) → CountsLine hash n c (dec_many_current_reqnb hash n c)
unfolding dec_many_current_reqnb
dec_many_current_reqnb-CountsLine hash n c = record {
  width = length-modify hash (λ x. x -ℤ pos n) c.hashlist_reqcounter;
  own = get_or-modify hash (λ x. x -ℤ pos n) c.hashlist_reqcounter;
  others = get_or-modify_other hash (λ x. x -ℤ pos n) c.hashlist_reqcounter;
}

-- Processing a well-formed request, single or virtual: the user is told each of its requests exactly
-- once and in order, whichever callbacks exist; these go to the end of the dispatch queue with the
-- time of the dispatch; the size of the queue, the counters of requests of the library and of the file,
-- and that of the line of the hashtable fall by what was dispatched; the other lines keep theirs; and
-- the counter of files falls by one where the file has no request left.
pub process-delivers :
    (has_list_cb : Bool) (head : Request) (hash now : ℕ) (file : File) (c : Counters)
    → IsShaped head
    → (s : Step1) × (process_requests_step1 true head hash now file c ≡ some s)
      × (delivered (process_requests_step2 has_list_cb s.info) ≡ user_ids (parts head))
      × Dispatched (parts head) now (fields head).type file s.file
      × (count (parts head) ≡ (fields head).reqnb)
      × (s.counters.current_reqnb ≡ c.current_reqnb -ℤ pos (fields head).reqnb)
      × CountsLine hash (fields head).reqnb c s.counters
      × (s.counters.current_filenb
          ≡ (if is_zero s.file.timeline_reqnb then c.current_filenb -ℤ pos 1 else c.current_filenb))
unfolding process_requests_step1 dec_many_current_reqnb
process-delivers has_list_cb head hash now file c shape = (
  _,
  refl,
  rw (← info_count) (
      delivered-step2 has_list_cb (user_ids (parts head)) (
        omega (
          arith,
          length-user_ids (parts head),
          count-parts head shape,
          IsShaped-reqnb head shape,
        ))),
  dispatch_all-Dispatched (parts head) now (fields head).type file,
  count-parts head shape,
  counted,
  on_line,
  files_left (dispatch_all (parts head) now (fields head).type file).timeline_reqnb,
)
  where
    info_count : length (user_ids (parts head)) ≡ (
        if ltb 1 (fields head).reqnb then length (user_ids (parts head)) else (fields head).reqnb)
    info_count = ground (arith, length-user_ids (parts head), count-parts head shape)

    counted :
        (dec_many_current_reqnb hash (fields head).reqnb (
          settle_files
            (dispatch_all (parts head) now (fields head).type file).timeline_reqnb
            c)).current_reqnb
        ≡ c.current_reqnb -ℤ pos (fields head).reqnb
    counted =
        ap (λ z. z -ℤ pos (fields head).reqnb)
          (reqnb-settle_files (dispatch_all (parts head) now (fields head).type file).timeline_reqnb
            c)

    on_line : CountsLine hash (fields head).reqnb c (
        dec_many_current_reqnb hash
          (fields head).reqnb
          (settle_files (dispatch_all (parts head) now (fields head).type file).timeline_reqnb c))
    on_line =
        let n = (dispatch_all (parts head) now (fields head).type file).timeline_reqnb in
        let h = dec_many_current_reqnb-CountsLine hash (fields head).reqnb (settle_files n c) in
        let same = lines-settle_files n c in
        record {
          width = h.width ∙ ap length same;
          own = λ k.
              h.own (omega (arith, ap length same))
              ∙ ap (λ xs. get_or xs hash (pos 0) -ℤ pos (fields head).reqnb) same;
          others = λ j ne. h.others j ne ∙ ap (λ xs. get_or xs j (pos 0)) same;
        }

    files_left :
        (z : ℤ)
        → (dec_many_current_reqnb hash (fields head).reqnb (settle_files z c)).current_filenb
          ≡ (if is_zero z then c.current_filenb -ℤ pos 1 else c.current_filenb)
    files_left z = filenb-settle_files z c
