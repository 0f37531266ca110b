-- ===== src/Airpay/Jobs/Queue.antt =====
-- The reads of api/airpay_runtime/airpay_jobs.py: `AirpayJobStore.get`, `active`, `latest` and
-- `candidates`, over one state of the table.
use homtech_hub.Prelude.{
  ℕ, zero, suc, Text, Bool, true, false, ◌&&◌, ◌||◌, List, [], ◌∷◌, ◌++◌, Option, none, some, ◌==◌,
  ltb, leb, if◌then◌else◌, length, any, find, keep, take, text_eq, sort_by,
}
use homtech_hub.Airpay.Http.{Try, returns, raises}
use homtech_hub.Airpay.Jobs.{
  Job, JobAction, find_job, is_active, is_active_for, is_running, is_sensitive, same_action,
  job_missing,
}

unfoldable pub get_job : Text → ℕ → List Job → Try Job
get_job owner id jobs = elim (find_job id jobs) [
  | none ↦ raises job_missing
  | some j ↦ if text_eq j.created_by owner then returns j else raises job_missing
]

unfoldable pub active_job : Text → ℕ → List Job → Option Job
unfolding find
active_job owner transaction jobs = find (is_active_for owner transaction) jobs

-- ORDER BY created_at, id, and the same downwards
abbrev pub is_sooner : Job → Job → Bool
is_sooner a b = ltb a.created_at b.created_at || (a.created_at == b.created_at && leb a.id b.id)

abbrev pub first_of : List Job → Option Job
first_of [] = none
first_of (j ∷ jobs) = some j

unfoldable pub latest_job : Text → ℕ → List Job → Option Job
unfolding keep sort_by text_eq
latest_job owner transaction jobs = first_of (
    sort_by (λ a b. is_sooner b a)
      (keep (λ (j : Job). text_eq j.created_by owner && j.transaction_id == transaction) jobs))

-- The time and the id of the last row that has been read.
abbrev pub Cursor : Type 0
Cursor = Option (ℕ × ℕ)

-- `(created_at, id) > (time, id)`
abbrev pub comes_after : ℕ × ℕ → Job → Bool
comes_after (time, id) j = ltb time j.created_at || (time == j.created_at && ltb id j.id)

abbrev pub is_ahead : Cursor → Job → Bool
is_ahead none j = true
is_ahead (some key) j = comes_after key j

unfoldable pub is_candidate : List JobAction → Option Text → Job → Bool
unfolding any text_eq
is_candidate actions owner j =
    is_active j.state
    && (any (same_action j.action) actions || (is_running j.state && is_sensitive j.action))
    && elim owner [ none ↦ true | some o ↦ text_eq j.created_by o ]

-- LIMIT 32
unfoldable pub read_candidates : List JobAction → Option Text → Cursor → List Job → List Job
unfolding is_candidate keep sort_by take
read_candidates actions owner cursor jobs =
    take 32 (sort_by is_sooner (keep (λ j. is_candidate actions owner j && is_ahead cursor j) jobs))

abbrev pub last_of : List Job → Option Job
last_of [] = none
last_of (j ∷ []) = some j
last_of (j ∷ k ∷ jobs) = last_of (k ∷ jobs)

abbrev pub key_of : Job → ℕ × ℕ
key_of j = (j.created_at, j.id)

-- One round of the loop, and the rounds after it. The last row of a full page is there.
abbrev pub page_then : List Job → (Job → Option (List Job)) → Option (List Job)
page_then rows later = elim (ltb (length rows) 32) [
  | true ↦ some rows
  | false ↦ elim (last_of rows) [
    | none ↦ none
    | some j ↦ elim (later j) [ none ↦ none | some rest ↦ some (rows ++ rest) ]
  ]
]

-- The loop, on fuel: what it yields, or nothing if the fuel runs out.
unfoldable pub candidates : ℕ → List JobAction → Option Text → Cursor → List Job → Option (List Job)
candidates zero actions owner cursor jobs = none
candidates (suc fuel) actions owner cursor jobs =
    page_then (read_candidates actions owner cursor jobs)
      (λ j. candidates fuel actions owner (some (key_of j)) jobs)
