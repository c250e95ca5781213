-- ===== src/Files/Lookup.antt =====
-- The collision list of a hashtable line stays strictly sorted by file handle, and a file is found
-- again under its handle.
use forwarding_explorer_agio.Prelude.{
  ◌≡◌, refl, List, [], ◌∷◌, none, some, arith, ap, sym, ◌∙◌, ◌≢◌, ◌⊎◌, inl, inr,
}
use forwarding_explorer_agio.Prelude.Int.{pos, negsuc}
use forwarding_explorer_agio.Data.{FileId, nil, Queue, File}
use forwarding_explorer_agio.Files.{
  Order, below, same, above, strcmp, Found, find_or_add, init_queue_statistics, init_queue,
  file_constructor, file_init, find_file, set_file,
}

pub strcmp_refl : (a : FileId) → strcmp a a ≡ same
strcmp_refl [] = refl
strcmp_refl (x ∷ a) = ground (arith, strcmp_refl a)

pub eq_of_strcmp : (a b : FileId) → strcmp a b ≡ same → a ≡ b
eq_of_strcmp [] [] e = refl
eq_of_strcmp [] (y ∷ b) e = cc
eq_of_strcmp (x ∷ a) [] e = cc
eq_of_strcmp (x ∷ a) (y ∷ b) e = ground (arith, eq_of_strcmp a b)

pub strcmp_flip : (a b : FileId) → strcmp a b ≡ above → strcmp b a ≡ below
strcmp_flip [] [] e = cc
strcmp_flip [] (y ∷ b) e = cc
strcmp_flip (x ∷ a) [] e = refl
strcmp_flip (x ∷ a) (y ∷ b) e = ground (arith, strcmp_flip a b)

pub strcmp_flip_below : (a b : FileId) → strcmp a b ≡ below → strcmp b a ≡ above
strcmp_flip_below [] [] e = cc
strcmp_flip_below [] (y ∷ b) e = refl
strcmp_flip_below (x ∷ a) [] e = cc
strcmp_flip_below (x ∷ a) (y ∷ b) e = ground (arith, strcmp_flip_below a b)

pub strcmp_trans : (a b c : FileId) → strcmp a b ≡ below → strcmp b c ≡ below → strcmp a c ≡ below
strcmp_trans [] [] c e f = cc
strcmp_trans [] (y ∷ b) [] e f = cc
strcmp_trans [] (y ∷ b) (z ∷ c) e f = refl
strcmp_trans (x ∷ a) [] c e f = cc
strcmp_trans (x ∷ a) (y ∷ b) [] e f = cc
strcmp_trans (x ∷ a) (y ∷ b) (z ∷ c) e f = ground (arith, strcmp_trans a b c)

-- The handles of a line rise strictly, and are all above a given one.
abbrev pub Above : FileId → List File → Type 0
Above k [] = Unit {0}
Above k (f ∷ fs) = (strcmp k f.file_id ≡ below) × Above f.file_id fs

abbrev pub IsLine : List File → Type 0
IsLine [] = Unit {0}
IsLine (f ∷ fs) = Above f.file_id fs

pub Above-trans : (j k : FileId) (fs : List File) → strcmp j k ≡ below → Above k fs → Above j fs
Above-trans j k [] e h = tt
Above-trans j k (f ∷ fs) e h = (strcmp_trans j k f.file_id e h.0, h.1)

pub Above-IsLine : (k : FileId) (fs : List File) → Above k fs → IsLine fs
Above-IsLine k [] h = tt
Above-IsLine k (f ∷ fs) h = h.1

pub Order-cases : (o : Order) → (o ≡ below) ⊎ (o ≡ same) ⊎ (o ≡ above)
Order-cases below = inl refl
Order-cases same = inr (inl refl)
Order-cases above = inr (inr refl)

pub find_file-Above : (k : FileId) (fs : List File) → Above k fs → find_file k fs ≡ none
unfolding find_file
find_file-Above k [] h = refl
find_file-Above k (f ∷ fs) h =
    rw (strcmp_flip_below k f.file_id h.0, find_file)
      (find_file-Above k fs (Above-trans k f.file_id fs h.0 h.1))

-- A queue in which nothing has happened.
pub record IsUnused (q : Queue) : Type 0 where
  pub list : q.list ≡ nil
  pub dispatch : q.dispatch ≡ nil
  pub current_size : q.current_size ≡ pos 0
  pub offsets : (q.laststartoff ≡ 0) × (q.lastfinaloff ≡ 0) × (q.predictedoff ≡ 0)
  pub waits : (q.shift_phenomena ≡ 0) × (q.better_aggregation ≡ 0)
  pub quantum : q.nextquantum ≡ 0
  pub aggregation : (q.lastaggregation ≡ 0) × (q.best_agg ≡ 0)
  pub received : q.last_received_finaloffset ≡ 0
  pub counts :
      (q.stats.receivedreq_nb ≡ 0)
      × (q.stats.processedreq_nb ≡ 0)
      × (q.stats.releasedreq_nb ≡ 0)
      × (q.stats.processed_req_size ≡ 0)
      × (q.stats.aggs_no ≡ 0)
  pub averages :
      (q.stats.processed_bandwidth ≡ negsuc 0)
      × (q.stats.avg_req_size ≡ negsuc 0)
      × (q.stats.avg_time_between_requests ≡ negsuc 0)
      × (q.stats.avg_distance ≡ negsuc 0)

-- An initialised file, which has had no request.
pub record IsInitialised (f : File) : Type 0 where
  pub first_request_time : f.first_request_time ≡ 0
  pub waiting_time : f.waiting_time ≡ 0
  pub timeline_reqnb : f.timeline_reqnb ≡ pos 0
  pub reads : IsUnused f.read_queue
  pub writes : IsUnused f.write_queue

init_queue-IsUnused : (q : Queue) → IsUnused (init_queue q)
unfolding init_queue init_queue_statistics
init_queue-IsUnused q = record {
  list = refl;
  dispatch = refl;
  current_size = refl;
  offsets = (refl, refl, refl);
  waits = (refl, refl);
  quantum = refl;
  aggregation = (refl, refl);
  received = refl;
  counts = (refl, refl, refl, refl, refl);
  averages = (refl, refl, refl, refl);
}

file_init-IsInitialised : (m : File) (k : FileId) → IsInitialised (file_init m k)
unfolding file_init
file_init-IsInitialised m k = record {
  first_request_time = refl;
  waiting_time = refl;
  timeline_reqnb = refl;
  reads = init_queue-IsUnused m.read_queue;
  writes = init_queue-IsUnused m.write_queue;
}

-- What the search leaves: the line sorted, the file in it, and all other handles as they were.
pub record Finds (file_id : FileId) (line : List File) (r : Found) : Type 0 where
  pub handle : r.req_file.file_id ≡ file_id
  pub sorted : (k : FileId) → strcmp k file_id ≡ below → Above k line → Above k r.line
  pub found : find_file file_id r.line ≡ some r.req_file
  pub others : (k : FileId) → k ≢ file_id → find_file k r.line ≡ find_file k line
  pub kept : (f : File) → find_file file_id line ≡ some f → r.req_file ≡ f
  pub fresh : find_file file_id line ≡ none → IsInitialised r.req_file

module _ (m : File) (file_id : FileId) where
  new_file : File
  new_file = file_init m file_id

  found_again :
      (f : File) (fs : List File) (k : FileId) → f.file_id ≡ k → find_file k (f ∷ fs) ≡ some f
  unfolding find_file
  found_again f fs k e = let s = ap (λ j. strcmp j k) e ∙ strcmp_refl k in rw (s, find_file)

  passed_over :
      (f : File) (fs : List File) (k : FileId)
      → f.file_id ≢ k
      → find_file k (f ∷ fs) ≡ find_file k fs
  unfolding find_file
  passed_over f fs k ne = ground (arith, eq_of_strcmp f.file_id k)

  handle-file_init : (file_init m file_id).file_id ≡ file_id
  unfolding file_init
  handle-file_init = refl

  added :
      (fs : List File)
      → Above file_id fs
      → Finds file_id fs
          (record { line = file_init m file_id ∷ fs; req_file = file_init m file_id })
  added fs h = record {
    handle = handle-file_init;
    sorted = λ k e _. (rw handle-file_init e, rw handle-file_init h);
    found = found_again (file_init m file_id) fs file_id handle-file_init;
    others = λ k ne. passed_over (file_init m file_id) fs k (λ e. ne (sym e ∙ handle-file_init));
    kept = λ f e. cc (find_file-Above file_id fs h);
    fresh = λ e. file_init-IsInitialised m file_id;
  }

  stopped :
      (f : File) (fs : List File)
      → f.file_id ≡ file_id
      → Finds file_id (f ∷ fs) (record { line = f ∷ fs; req_file = f })
  stopped f fs e = record {
    handle = e;
    sorted = λ k below h. h;
    found = found_again f fs file_id e;
    others = λ k ne. refl;
    kept = λ g h. cc (found_again f fs file_id e);
    fresh = λ h. cc (found_again f fs file_id e);
  }

  later :
      (f : File) (fs : List File) (r : Found)
      → strcmp f.file_id file_id ≡ below
      → Finds file_id fs r
      → Finds file_id (f ∷ fs) (record r { line = f ∷ r.line })
  unfolding find_file
  later f fs r e h = record {
    handle = h.handle;
    sorted = λ k b a. (a.0, h.sorted f.file_id e a.1);
    found = passed_over f r.line file_id (differs f e) ∙ h.found;
    others = λ k ne. ground (arith, h.others k ne);
    kept = λ g q. h.kept g (sym (passed_over f fs file_id (differs f e)) ∙ q);
    fresh = λ q. h.fresh (sym (passed_over f fs file_id (differs f e)) ∙ q);
  }
    where
      differs : (f : File) → strcmp f.file_id file_id ≡ below → f.file_id ≢ file_id
      differs f e q = cc (ap (λ j. strcmp j file_id) q, strcmp_refl file_id)

  -- On a sorted line, and given memory, the search finds the file of the handle, or adds one that has
  -- its times, its number of requests and both queues as for a file without any request, keeps the line
  -- sorted, and leaves what every other handle finds.
  pub find_or_add-Finds :
      (line : List File)
      → IsLine line
      → (r : Found) × (find_or_add (some m) line file_id ≡ some r)
        × IsLine r.line
        × Finds file_id line r
  unfolding find_or_add file_constructor
  find_or_add-Finds [] h = (_, refl, tt, added [] tt)
  find_or_add-Finds (f ∷ fs) h = elim (Order-cases (strcmp f.file_id file_id)) [
    | inl e ↦
        let (r, run, line, finds) = find_or_add-Finds fs (Above-IsLine f.file_id fs h) in
        (
          record r { line = f ∷ r.line },
          rw (e, find_or_add, run),
          finds.sorted f.file_id e h,
          later f fs r e finds,
        )
    | inr (inl e) ↦ (_, rw (e, find_or_add), h, stopped f fs (eq_of_strcmp f.file_id file_id e))
    | inr (inr e) ↦
        let up = strcmp_flip f.file_id file_id e in
        (_, rw (e, find_or_add), (rw handle-file_init up, h), added (f ∷ fs) (up, h))
  ]

-- Writing through the pointer to a file changes what its own handle finds, and nothing else.
pub find_file-set_file :
    (g old : File) (line : List File) (k : FileId)
    → find_file g.file_id line ≡ some old
    → (find_file g.file_id (set_file g line) ≡ some g)
      × (k ≢ g.file_id → find_file k (set_file g line) ≡ find_file k line)
unfolding find_file set_file
find_file-set_file g old [] k e = cc
find_file-set_file g old (f ∷ fs) k e = (
  ground (arith, find_file-set_file g old fs k, strcmp_refl g.file_id),
  λ ne. ground (
    arith,
    find_file-set_file g old fs k,
    eq_of_strcmp f.file_id g.file_id,
    eq_of_strcmp f.file_id k,
    eq_of_strcmp g.file_id k,
  ),
)
