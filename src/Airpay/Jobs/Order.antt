-- ===== src/Airpay/Jobs/Order.antt =====
-- The order in which `AirpayJobStore.candidates` of api/airpay_runtime/airpay_jobs.py reads: by the time and
-- the id, and how a filter and a cursor go with it.
use homtech_hub.Prelude.{
  ℕ, zero, suc, ◌≡◌, refl, ap, subst, ◌∙◌, Bool, true, false, not, ◌&&◌, Bool-cases, inl, inr, List,
  [], ◌∷◌, none, some, some-injective, ◌==◌, if◌then◌else◌, any, get_elem?, get_elem?-All,
  All_of_all, keep, drop, All, sort_by, insert_by, arith,
}
use homtech_hub.Airpay.Jobs.{Job}
use homtech_hub.Airpay.Jobs.Queue.{is_sooner, Cursor, comes_after, is_ahead, key_of}

-- The primary key of the table.
unfoldable pub ids_differ : List Job → Bool
unfolding any
ids_differ [] = true
ids_differ (j ∷ jobs) = not (any (λ (k : Job). k.id == j.id) jobs) && ids_differ jobs

abbrev pub follows : Job → Job → Bool
follows a b = comes_after (key_of a) b

follows_itself : (a : Job) → follows a a ≡ false
follows_itself a = ground arith

follows_back : (a b : Job) → follows a b ≡ true → follows b a ≡ false
follows_back a b h = ground arith

pub ahead_trans :
    (c : Cursor) (a b : Job) → is_ahead c a ≡ true → follows a b ≡ true → is_ahead c b ≡ true
ahead_trans none a b h k = refl
ahead_trans (some (t, i)) a b h k = ground arith

sooner_follows : (a b : Job) → (b.id == a.id) ≡ false → is_sooner a b ≡ true → follows a b ≡ true
sooner_follows a b other h = ground arith

later_follows : (a b : Job) → is_sooner a b ≡ false → follows b a ≡ true
later_follows a b h = ground arith

sooner_trans : (a b c : Job) → is_sooner a b ≡ true → follows b c ≡ true → is_sooner a c ≡ true
sooner_trans a b c h k = ground arith

-- Each job of the list is followed by the ones behind it.
abbrev pub Ordered : List Job → Type 0
Ordered [] = Unit
Ordered (j ∷ jobs) = All (λ k. follows j k ≡ true) jobs × Ordered jobs

All-keep {κ} :
    (P : Job → Type κ) (p : Job → Bool) (jobs : List Job) → All P jobs → All P (keep p jobs)
unfolding keep
All-keep P p [] a = tt
All-keep P p (j ∷ jobs) (h, a) = elim (Bool-cases (p j)) [
  | inl kept ↦ rw kept (h, All-keep P p jobs a)
  | inr left ↦ rw left (All-keep P p jobs a)
]

All-insert {κ} :
    (P : Job → Type κ) (j : Job) (jobs : List Job)
    → P j
    → All P jobs
    → All P (insert_by is_sooner j jobs)
unfolding insert_by
All-insert P j [] h a = (h, tt)
All-insert P j (k ∷ jobs) h (first, a) = elim (Bool-cases (is_sooner j k)) [
  | inl before ↦ rw before (h, (first, a))
  | inr after ↦ rw after (first, All-insert P j jobs h a)
]

abbrev pub IsOther : Job → Job → Type 0
IsOther j k = (k.id == j.id) ≡ false

others :
    (j : Job) (jobs : List Job)
    → any (λ (k : Job). k.id == j.id) jobs ≡ false
    → All (IsOther j) jobs
unfolding any
others j [] h = tt
others j (k ∷ jobs) h = (ground (arith, h), others j jobs (ground (arith, h)))

insert-Ordered :
    (j : Job) (jobs : List Job)
    → All (IsOther j) jobs
    → Ordered jobs
    → Ordered (insert_by is_sooner j jobs)
unfolding insert_by
insert-Ordered j [] other ordered = (tt, tt)
insert-Ordered j (k ∷ jobs) (differ, other) (behind, ordered) = elim (Bool-cases (is_sooner j k)) [
  | inl before ↦ rw before (
    (
      sooner_follows j k differ before,
      All_of_all (λ i. follows k i ≡ true) (λ i. follows j i ≡ true) jobs
          (λ i h. ahead_trans (some (key_of j)) k i (sooner_follows j k differ before) h) behind,
    ),
    (behind, ordered),
  )
  | inr after ↦ rw after (
    All-insert (λ i. follows k i ≡ true) j jobs (later_follows j k after) behind,
    insert-Ordered j jobs other ordered,
  )
]

All-sort {κ} : (P : Job → Type κ) (jobs : List Job) → All P jobs → All P (sort_by is_sooner jobs)
unfolding sort_by
All-sort P [] a = tt
All-sort P (j ∷ jobs) (h, a) = All-insert P j (sort_by is_sooner jobs) h (All-sort P jobs a)

pub sort-Ordered : (jobs : List Job) → ids_differ jobs ≡ true → Ordered (sort_by is_sooner jobs)
unfolding sort_by ids_differ
sort-Ordered [] h = tt
sort-Ordered (j ∷ jobs) h =
    insert-Ordered j (sort_by is_sooner jobs)
      (All-sort (IsOther j) jobs (others j jobs (ground (arith, h))))
      (sort-Ordered jobs (ground (arith, h)))

insert_first :
    (j : Job) (jobs : List Job)
    → All (λ k. is_sooner j k ≡ true) jobs
    → insert_by is_sooner j jobs ≡ j ∷ jobs
unfolding insert_by
insert_first j [] a = refl
insert_first j (k ∷ jobs) (h, a) = rw h refl

-- What is left out makes no difference to the place of a job.
keep-insert :
    (p : Job → Bool) (j : Job) (jobs : List Job)
    → Ordered jobs
    → keep p (insert_by is_sooner j jobs)
      ≡ (if p j then insert_by is_sooner j (keep p jobs) else keep p jobs)
unfolding insert_by keep
keep-insert p j [] ordered = ground arith
keep-insert p j (k ∷ jobs) (behind, ordered) = elim (Bool-cases (is_sooner j k)) [
  | inl before ↦ rw before (elim (Bool-cases (p k)) [
    | inl kept ↦ rw kept (rw before refl)
    | inr left ↦ rw left (
        rw
          (insert_first j (keep p jobs) (
            All-keep (λ i. is_sooner j i ≡ true) p jobs
              (All_of_all (λ i. follows k i ≡ true) (λ i. is_sooner j i ≡ true) jobs
                (λ i h. sooner_trans j k i before h) behind)))
          refl)
  ])
  | inr after ↦ rw after (elim (Bool-cases (p k)) [
    | inl kept ↦ rw kept (
        ap (◌∷◌ k) (keep-insert p j jobs ordered) ∙ elim (Bool-cases (p j)) [
          | inl chosen ↦ rw chosen (rw after refl)
          | inr refused ↦ rw refused refl
        ])
    | inr left ↦ rw left (keep-insert p j jobs ordered)
  ])
]

pub keep-sort :
    (p : Job → Bool) (jobs : List Job)
    → ids_differ jobs ≡ true
    → keep p (sort_by is_sooner jobs) ≡ sort_by is_sooner (keep p jobs)
unfolding sort_by keep ids_differ
keep-sort p [] h = refl
keep-sort p (j ∷ jobs) h =
    keep-insert p j (sort_by is_sooner jobs) (sort-Ordered jobs (ground (arith, h)))
    ∙ rw (keep-sort p jobs (ground (arith, h)))
        (elim (Bool-cases (p j)) [ inl chosen ↦ rw chosen refl | inr refused ↦ rw refused refl ])

pub keep-Ordered : (p : Job → Bool) (jobs : List Job) → Ordered jobs → Ordered (keep p jobs)
unfolding keep
keep-Ordered p [] ordered = tt
keep-Ordered p (j ∷ jobs) (behind, ordered) = elim (Bool-cases (p j)) [
  | inl kept ↦
      rw kept (All-keep (λ k. follows j k ≡ true) p jobs behind, keep-Ordered p jobs ordered)
  | inr left ↦ rw left (keep-Ordered p jobs ordered)
]

pub keep_both :
    (p q : Job → Bool) (jobs : List Job) → keep (λ j. p j && q j) jobs ≡ keep q (keep p jobs)
unfolding keep
keep_both p q [] = refl
keep_both p q (j ∷ jobs) = elim (Bool-cases (p j)) [
  | inl chosen ↦ rw chosen (rw (keep_both p q jobs) refl)
  | inr refused ↦ rw refused (keep_both p q jobs)
]

pub keep_all : (p : Job → Bool) (jobs : List Job) → All (λ j. p j ≡ true) jobs → keep p jobs ≡ jobs
unfolding keep
keep_all p [] a = refl
keep_all p (j ∷ jobs) (h, a) = rw h (ap (◌∷◌ j) (keep_all p jobs a))

pub keep_weaker :
    (p q : Job → Bool) (jobs : List Job)
    → ((j : Job) → q j ≡ true → p j ≡ true)
    → keep q (keep p jobs) ≡ keep q jobs
unfolding keep
keep_weaker p q [] weaker = refl
keep_weaker p q (j ∷ jobs) weaker = elim (Bool-cases (p j)) [
  | inl chosen ↦ rw chosen (rw (keep_weaker p q jobs weaker) refl)
  | inr refused ↦ elim (Bool-cases (q j)) [
    | inl wanted ↦ absurd (ground (arith, weaker j wanted, refused))
    | inr other ↦ rw refused (rw other (keep_weaker p q jobs weaker))
  ]
]

-- Behind the job at a place is what stands after it.
pub keep-drop :
    (n : ℕ) (jobs : List Job) (e : Job)
    → Ordered jobs
    → get_elem? jobs n ≡ some e
    → keep (follows e) jobs ≡ drop (suc n) jobs
unfolding keep drop
keep-drop n [] e ordered h = absurd (ground (arith, h))
keep-drop zero (j ∷ jobs) e (behind, ordered) h =
    subst (λ x. keep (follows x) (j ∷ jobs) ≡ jobs) (some-injective _ _ h)
      (rw (follows_itself j) (keep_all (follows j) jobs behind))
keep-drop (suc n) (j ∷ jobs) e (behind, ordered) h =
    let back : follows e j ≡ false =
      follows_back j e (get_elem?-All (λ k. follows j k ≡ true) jobs n behind h) in
    rw back (keep-drop n jobs e ordered h)

pub All_kept : (p : Job → Bool) (jobs : List Job) → All (λ j. p j ≡ true) (keep p jobs)
unfolding keep
All_kept p [] = tt
All_kept p (j ∷ jobs) = elim (Bool-cases (p j)) [
  | inl chosen ↦ rw chosen (chosen, All_kept p jobs)
  | inr refused ↦ rw refused (All_kept p jobs)
]

any-keep : (p q : Job → Bool) (jobs : List Job) → any q jobs ≡ false → any q (keep p jobs) ≡ false
unfolding any keep
any-keep p q [] h = refl
any-keep p q (j ∷ jobs) h = ground (arith, any-keep p q jobs, h)

pub ids_differ-keep :
    (p : Job → Bool) (jobs : List Job) → ids_differ jobs ≡ true → ids_differ (keep p jobs) ≡ true
unfolding ids_differ keep
ids_differ-keep p [] h = refl
ids_differ-keep p (j ∷ jobs) h =
    let rest = ids_differ-keep p jobs (ground (arith, h)) in
    let other = any-keep p (λ (k : Job). k.id == j.id) jobs (ground (arith, h)) in
    ground (arith, rest, other)
