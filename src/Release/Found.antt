-- ===== src/Release/Found.antt =====
-- What agios_release_request.c removes, and what it leaves alone.
use forwarding_explorer_agio.Prelude.{
  ℕ, ◌+◌, ◌-◌, ◌/◌, ◌<◌, ◌≡◌, refl, ap, ◌∙◌, ◌⊎◌, inl, inr, true, false, none, some, List, ◌∷◌,
  Bool-cases, arith,
}
use forwarding_explorer_agio.Prelude.Int.{ℤ, pos, sub_ℕ}
use forwarding_explorer_agio.Data.{FileId, Request, Requests, nil, cons, fields, File, Queue}
use forwarding_explorer_agio.Requests.{append}
use forwarding_explorer_agio.Files.{find_file, set_file}
use forwarding_explorer_agio.Files.Lookup.{find_file-set_file}
use forwarding_explorer_agio.Performance.{PerformanceEntry, Performance}
use forwarding_explorer_agio.Performance.Periods.{CountedIn, account_request-CountedIn}
use forwarding_explorer_agio.Common.{update_iterative_average}
use forwarding_explorer_agio.Release.{
  keep, is_match, take_match, related_queue, set_related, generic_cleanup, count_release, quotient,
  finish_release, agios_release_request,
}

-- Requests none of which has this size and offset.
abbrev pub NoMatch : ℕ → ℕ → Requests → Type 0
NoMatch len offset nil = Unit {0}
NoMatch len offset (cons r rs) = (is_match len offset r ≡ false) × NoMatch len offset rs

-- A search takes the first match out, or finds that there is none.
pub take_match-cases :
    (len offset : ℕ) (rs : Requests)
    → ((take_match len offset rs ≡ none) × NoMatch len offset rs)
      ⊎ ((a : Requests) × (r : Request) × (b : Requests) × (rs ≡ append a (cons r b))
          × (take_match len offset rs ≡ some (record { req = r; rest = append a b }))
          × NoMatch len offset a
          × (is_match len offset r ≡ true))
unfolding take_match
take_match-cases len offset nil = inl (refl, tt)
take_match-cases len offset (cons r rs) = elim (Bool-cases (is_match len offset r)) [
  | inl here ↦ inr (nil, r, rs, refl, rw here, tt, here)
  | inr away ↦ elim (take_match-cases len offset rs) [
    | inl (e, h) ↦ inl (rw away (ap (keep r) e), (away, h))
    | inr (a, x, b, s, e, h, m) ↦
        inr (cons r a, x, b, ap (cons r) s, rw away (ap (keep r) e), (away, h), m)
  ]
]

take_match-first :
    (len offset : ℕ) (a : Requests) (r : Request) (b : Requests)
    → NoMatch len offset a
    → is_match len offset r ≡ true
    → take_match len offset (append a (cons r b)) ≡ some (record { req = r; rest = append a b })
unfolding take_match
take_match-first len offset nil r b h m = rw m
take_match-first len offset (cons x a) r b h m =
    rw (h.0) (ap (keep x) (take_match-first len offset a r b h.1 m))

take_match-none :
    (len offset : ℕ) (a : Requests) → NoMatch len offset a → take_match len offset a ≡ none
unfolding take_match
take_match-none len offset nil h = refl
take_match-none len offset (cons x a) h = rw (h.0) (ap (keep x) (take_match-none len offset a h.1))

quotient-elapsed :
    (len now t : ℕ) → t < now → quotient len (sub_ℕ now t) ≡ some (pos (len / (now - t)))
quotient-elapsed len now t h = ground arith

-- What a successful release leaves of the file: `q` is the queue before, and `q'` after.
pub record Finished (r : Request) (rest : Requests) (measured : ℤ) (q q' : Queue) : Type 0 where
  pub dispatch : q'.dispatch ≡ rest
  pub list : q'.list ≡ q.list
  pub size : q'.current_size ≡ q.current_size
  pub processed : q'.stats.processedreq_nb ≡ q.stats.processedreq_nb + 1
  pub bytes : q'.stats.processed_req_size ≡ q.stats.processed_req_size + (fields r).len
  pub released : q'.stats.releasedreq_nb ≡ q.stats.releasedreq_nb + 1
  pub bandwidth :
      q'.stats.processed_bandwidth
      ≡ update_iterative_average q.stats.processed_bandwidth measured (q.stats.releasedreq_nb + 1)

released_file : ℕ → File → Request → Requests → ℤ → File
released_file type f r rest bandwidth =
    let q = record (related_queue type f) { dispatch = rest } in
    set_related type (generic_cleanup r (count_release bandwidth q)) f

handle-released_file :
    (type : ℕ) (f : File) (r : Request) (rest : Requests) (bandwidth : ℤ)
    → (released_file type f r rest bandwidth).file_id ≡ f.file_id
unfolding released_file
handle-released_file type f r rest bandwidth = ground arith

related-set_related :
    (type : ℕ) (q : Queue) (f : File) → related_queue type (set_related type q f) ≡ q
related-set_related type q f = ground arith

released_file-Finished :
    (type : ℕ) (f : File) (r : Request) (rest : Requests) (bandwidth : ℤ)
    → Finished r rest bandwidth
        (related_queue type f)
        (related_queue type (released_file type f r rest bandwidth))
unfolding released_file generic_cleanup count_release
released_file-Finished type f r rest bandwidth = rw related-set_related (record {
  dispatch = refl;
  list = refl;
  size = refl;
  processed = refl;
  bytes = refl;
  released = refl;
  bandwidth = refl;
})

module _ (file_id : FileId) (type len offset now : ℕ) (line : List File) (p : Performance) where
  -- A release of a request that is not in the dispatch queue, or of a file that has no structure,
  -- returns false and changes nothing.
  pub agios_release_request-refused :
      (find_file file_id line ≡ none)
        ⊎ ((f : File) × (find_file file_id line ≡ some f)
            × NoMatch len offset (related_queue type f).dispatch)
      → agios_release_request file_id type len offset now line p
        ≡ some (record { ret = false; line = line; performance = p })
  unfolding agios_release_request
  agios_release_request-refused (inl e) = rw (e, agios_release_request)
  agios_release_request-refused (inr (f, e, h)) =
      rw (e, agios_release_request)
        (rw (take_match-none len offset (related_queue type f).dispatch h))

  -- Where the performance record has a current period, the release of a request that arrived before
  -- `now` takes the first request of this size and offset, and only that, out of the dispatch queue,
  -- keeps the order of the others, counts it in the statistics of the queue with its bandwidth, and puts
  -- the file back in its line. In the performance record the request is counted in the newest period
  -- that began no later than its dispatch and in no other, or in none if all began later.
  pub agios_release_request-Finished :
      (f : File) (a : Requests) (r : Request) (b : Requests) (current : PerformanceEntry)
      (older : List PerformanceEntry)
      → p.performance_info ≡ current ∷ older
      → find_file file_id line ≡ some f
      → f.file_id ≡ file_id
      → (related_queue type f).dispatch ≡ append a (cons r b)
      → NoMatch len offset a
      → is_match len offset r ≡ true
      → (fields r).arrival_time < now
      → let bandwidth = pos ((fields r).len / (now - (fields r).arrival_time)) in
        (f' : File) × (p' : Performance) × (agios_release_request file_id type len offset now line p
          ≡ some (record { ret = true; line = set_file f' line; performance = p' }))
        × CountedIn r bandwidth p p'
        × (find_file file_id (set_file f' line) ≡ some f')
        × Finished r (append a b) bandwidth (related_queue type f) (related_queue type f')
  unfolding agios_release_request finish_release released_file
  agios_release_request-Finished f a r b current older on_record e own d h m late =
      let bandwidth = pos ((fields r).len / (now - (fields r).arrival_time)) in
      let f' = released_file type f r (append a b) bandwidth in
      let (p', run, counted) = account_request-CountedIn r bandwidth p current older on_record in
      (
        f',
        p',
        rw (e, agios_release_request)
            (rw (d, take_match-first len offset a r b h m)
              (rw (
                quotient-elapsed (fields r).len now (fields r).arrival_time late,
                finish_release,
                run,
              ))),
        counted,
        rw (← handle-released_file type f r (append a b) bandwidth ∙ own)
            (find_file-set_file f' f line file_id
              (rw (handle-released_file type f r (append a b) bandwidth ∙ own) e)).0,
        released_file-Finished type f r (append a b) bandwidth,
      )
