-- ===== src/Airpay/Jobs/Paging.antt =====
-- The loop of `AirpayJobStore.candidates` in api/airpay_runtime/airpay_jobs.py, page after page.
use homtech_hub.Prelude.{
  ℕ, zero, suc, ◌*◌, ◌-◌, ◌≤◌, ◌<◌, ◌≡◌, refl, sym, ap, ◌∙◌, Text, Bool, true, false, Bool-cases,
  inl, inr, List, [], ◌∷◌, ◌++◌, Option, none, some, length-sort_by, ltb, length, get_elem?,
  get_elem?-All, keep, take, drop, take_short, All, sort_by, arith,
}
use homtech_hub.Airpay.Jobs.{Job, JobAction}
use homtech_hub.Airpay.Jobs.Queue.{
  is_sooner, Cursor, is_ahead, is_candidate, read_candidates, last_of, key_of, page_then,
  candidates,
}
use homtech_hub.Airpay.Jobs.Order.{
  ids_differ, follows, ahead_trans, Ordered, keep-drop, sort-Ordered, keep-sort, keep-Ordered,
  keep_both, keep_all, keep_weaker, All_kept, ids_differ-keep,
}

last_of-take :
    (n : ℕ) (jobs : List Job)
    → suc n ≤ length (take (suc n) jobs)
    → (e : Job) × (last_of (take (suc n) jobs) ≡ some e) × (get_elem? jobs n ≡ some e)
unfolding take
last_of-take n [] full = absurd (omega (arith, full))
last_of-take zero (j ∷ jobs) full = (j, refl, refl)
last_of-take (suc n) (j ∷ []) full = absurd (omega (arith, full))
last_of-take (suc n) (j ∷ k ∷ jobs) full = last_of-take n (k ∷ jobs) (omega (arith, full))

take-drop : (n : ℕ) (jobs : List Job) → take n jobs ++ drop n jobs ≡ jobs
unfolding take drop
take-drop zero jobs = refl
take-drop (suc n) [] = refl
take-drop (suc n) (j ∷ jobs) = ap (◌∷◌ j) (take-drop n jobs)

length-drop : (n : ℕ) (jobs : List Job) → length (drop n jobs) ≡ length jobs - n
unfolding drop
length-drop zero jobs = omega arith
length-drop (suc n) [] = omega arith
length-drop (suc n) (j ∷ jobs) = omega (arith, length-drop n jobs)

length-keep : (p : Job → Bool) (jobs : List Job) → length (keep p jobs) ≤ length jobs
unfolding keep
length-keep p [] = omega arith
length-keep p (j ∷ jobs) = ground (arith, length-keep p jobs)

length-take-le : (n : ℕ) (jobs : List Job) → length (take n jobs) ≤ length jobs
unfolding take
length-take-le zero jobs = omega arith
length-take-le (suc n) [] = omega arith
length-take-le (suc n) (j ∷ jobs) = omega (arith, length-take-le n jobs)

page_then-short :
    (rows : List Job) (later : Job → Option (List Job))
    → ltb (length rows) 32 ≡ true
    → page_then rows later ≡ some rows
page_then-short rows later short = ground (arith, short)

page_then-full :
    (rows rest : List Job) (later : Job → Option (List Job)) (e : Job)
    → ltb (length rows) 32 ≡ false
    → last_of rows ≡ some e
    → later e ≡ some rest
    → page_then rows later ≡ some (rows ++ rest)
page_then-full rows rest later e full last more = ground (arith, full, last, more)

everything : (jobs : List Job) → All (λ j. true ≡ true) jobs
everything [] = tt
everything (j ∷ jobs) = (refl, everything jobs)

not_below : (n : ℕ) → ltb n 32 ≡ false → 32 ≤ n
not_below n h = ground (arith, h)

module _ (actions : List JobAction) (owner : Option Text) (jobs : List Job)
    (differ : ids_differ jobs ≡ true) where
  -- The whole queue in order, and what is ahead of a cursor.
  abbrev queue : List Job
  queue = sort_by is_sooner (keep (is_candidate actions owner) jobs)

  abbrev ahead : Cursor → List Job
  ahead c = keep (is_ahead c) queue

  queue-Ordered : Ordered queue
  queue-Ordered =
      sort-Ordered (keep (is_candidate actions owner) jobs)
        (ids_differ-keep (is_candidate actions owner) jobs differ)

  read_candidates-take : (c : Cursor) → read_candidates actions owner c jobs ≡ take 32 (ahead c)
  unfolding read_candidates
  read_candidates-take c =
      ap (λ l. take 32 (sort_by is_sooner l))
        (keep_both (is_candidate actions owner) (is_ahead c) jobs)
      ∙ ap (take 32) (
          sym (
            keep-sort (is_ahead c) (keep (is_candidate actions owner) jobs)
              (ids_differ-keep (is_candidate actions owner) jobs differ)))

  -- After a full page, the next one starts behind its last row.
  next_page :
      (c : Cursor) (e : Job)
      → get_elem? (ahead c) 31 ≡ some e
      → ahead (some (key_of e)) ≡ drop 32 (ahead c)
  next_page c e there =
      sym (
        keep_weaker (is_ahead c) (follows e) queue (λ j h.
          ahead_trans c e j
            (get_elem?-All (λ k. is_ahead c k ≡ true) (ahead c) 31 (All_kept (is_ahead c) queue)
              there)
            h))
      ∙ keep-drop 31 (ahead c) e (keep-Ordered (is_ahead c) queue queue-Ordered) there

  abbrev later : ℕ → Job → Option (List Job)
  later fuel j = candidates fuel actions owner (some (key_of j)) jobs

  candidates-ahead :
      (fuel : ℕ) (c : Cursor)
      → length (ahead c) < 32 * fuel
      → candidates fuel actions owner c jobs ≡ some (ahead c)
  unfolding candidates
  candidates-ahead zero c enough = absurd (omega (arith, enough))
  candidates-ahead (suc fuel) c enough =
      ap (λ rows. page_then rows (later fuel)) (read_candidates-take c)
      ∙ elim (Bool-cases (ltb (length (take 32 (ahead c))) 32)) [
        | inl short ↦
            page_then-short (take 32 (ahead c)) (later fuel) short
            ∙ ap some (take_short 31 (ahead c) (ground (arith, short)))
        | inr full ↦
            let (e, last, there) = last_of-take 31 (ahead c) (ground (arith, full)) in
            let page_after = next_page c e there in
            let long : 32 ≤ length (ahead c) =
              omega
                (arith, length-take-le 32 (ahead c), not_below (length (take 32 (ahead c))) full) in
            let smaller : length (ahead (some (key_of e))) < 32 * fuel =
              omega (arith, ap length page_after, length-drop 32 (ahead c), long, enough) in
            page_then-full (take 32 (ahead c)) (ahead (some (key_of e))) (later fuel) e full last
              (candidates-ahead fuel (some (key_of e)) smaller)
            ∙ ap some (ap (λ l. take 32 (ahead c) ++ l) page_after ∙ take-drop 32 (ahead c))
      ]

  -- The loop over the pages of 32 rows ends after at most one page more than the table fills, and yields
  -- every job that the worker may take, once, by its time and its id.
  pub candidates_pass_the_queue :
      (fuel : ℕ)
      → length jobs < 32 * fuel
      → candidates fuel actions owner none jobs
        ≡ some (sort_by is_sooner (keep (is_candidate actions owner) jobs))
  candidates_pass_the_queue fuel enough =
      let all : ahead none ≡ queue = keep_all (λ j. true) queue (everything queue) in
      let few : length (ahead none) < 32 * fuel = omega (
        arith,
        ap length all,
        enough,
        length-sort_by is_sooner (keep (is_candidate actions owner) jobs),
        length-keep (is_candidate actions owner) jobs,
      ) in
      candidates-ahead fuel none few ∙ ap some all
