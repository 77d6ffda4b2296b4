-- ===== src/Script/Queue/Steps.antt =====
-- src/script/queue.rs: the steps of callers and of the worker.
use rgnix.Base.{
  leb, if◌then◌else◌, Bool-cases, length, Text, text_eq, text_eq_iff, text_is_eq, lookup, insert,
  contains_key, length-insert, retain_entries, IsUnique, insert-IsUnique, retain_entries-IsUnique,
  length-retain_entries-le, ℕ, ◌+◌, ◌≤◌, ◌<◌, ◌≡◌, refl, sym, ap, ◌∙◌, ◌⊎◌, inl, inr, Bool, true,
  not, Option, none, some, List, [], ◌∷◌, ◌++◌, append_assoc, arith,
}
use rgnix.Script.Queue.{Job, State, no_jobs, count_of, submit_within, submit, take_job, finish}

-- The queue and the job that the worker compiles.
pub record Run : Type 0 where
  pub state : State
  pub working : Option Job

pub data Step : Run → Run → Type 0 where
  submits :
      (per_minute now : ℕ) (key namespace source : Text) (s : State) (w : Option Job)
      → Step
          (record { state = s; working = w })
          (record { state = (submit per_minute now key namespace source s).0; working = w })
  takes :
      (s t : State) (job : Job)
      → take_job s ≡ some (job, t)
      → Step (record { state = s; working = none }) (record { state = t; working = some job })
  finishes :
      (s : State) (job : Job)
      → Step
          (record { state = s; working = some job })
          (record { state = finish job.key s; working = none })

pub data Reachable : Run → Type 0 where
  starts : Reachable (record { state = no_jobs; working = none })
  steps : (r q : Run) → Reachable r → Step r q → Reachable q

abbrev pub keys_of : List Job → List Text
keys_of [] = []
keys_of (job ∷ jobs) = job.key ∷ keys_of jobs

abbrev pub working_key : Option Job → List Text
working_key none = []
working_key (some job) = job.key ∷ []

abbrev pub pending_keys : List (Text × Text) → List Text
pending_keys [] = []
pending_keys ((k, ns) ∷ m) = k ∷ pending_keys m

-- The pending keys are the one in work and then those of the jobs, each once; there are at most 128,
-- and at most two of a namespace.
abbrev pub IsSane : Run → Type 0
IsSane r =
    (pending_keys r.state.pending ≡ working_key r.working ++ keys_of r.state.jobs)
    × IsUnique r.state.pending
    × (length r.state.pending ≤ 128)
    × ((namespace : Text) → count_of namespace r.state.pending ≤ 2)

keys_of-append : (xs ys : List Job) → keys_of (xs ++ ys) ≡ keys_of xs ++ keys_of ys
keys_of-append [] ys = refl
keys_of-append (x ∷ xs) ys = ap (λ z. x.key ∷ z) (keys_of-append xs ys)

pending_keys-insert :
    (k ns : Text) (m : List (Text × Text))
    → lookup k m ≡ none
    → pending_keys (insert k ns m) ≡ pending_keys m ++ k ∷ []
pending_keys-insert k ns [] h = refl
pending_keys-insert k ns ((j, v) ∷ m) h = elim (Bool-cases (text_eq j k)) [
  | inl same ↦ absurd (ground (rw same at h, arith))
  | inr other ↦ rw other (ap (λ z. j ∷ z) (pending_keys-insert k ns m (rw other at h)))
]

count_of-insert :
    (namespace k ns : Text) (m : List (Text × Text))
    → lookup k m ≡ none
    → count_of namespace (insert k ns m)
      ≡ count_of namespace m + (if text_eq ns namespace then 1 else 0)
count_of-insert namespace k ns [] h = ground arith
count_of-insert namespace k ns ((j, v) ∷ m) h = elim (Bool-cases (text_eq j k)) [
  | inl same ↦ absurd (ground (rw same at h, arith))
  | inr other ↦ rw other (ground (arith, count_of-insert namespace k ns m (rw other at h)))
]

count_of-retain-le :
    (namespace : Text) (p : Text → Text → Bool) (m : List (Text × Text))
    → count_of namespace (retain_entries p m) ≤ count_of namespace m
count_of-retain-le namespace p [] = omega arith
count_of-retain-le namespace p ((j, v) ∷ m) = ground (arith, count_of-retain-le namespace p m)

-- Without a key that does not stand in the map, it stays as it is.
retain-missing :
    (key : Text) (m : List (Text × Text))
    → lookup key m ≡ none
    → retain_entries (λ k ns. not (text_eq k key)) m ≡ m
retain-missing key [] h = refl
retain-missing key ((j, v) ∷ m) h = elim (Bool-cases (text_eq j key)) [
  | inl same ↦ absurd (ground (rw same at h, arith))
  | inr other ↦ rw other (ap (λ z. (j, v) ∷ z) (retain-missing key m (rw other at h)))
]

-- The first pending key is the one that goes.
finish-first :
    (key : Text) (keys : List Text) (m : List (Text × Text))
    → pending_keys m ≡ key ∷ keys
    → IsUnique m
    → pending_keys (retain_entries (λ k ns. not (text_eq k key)) m) ≡ keys
finish-first key keys [] h u = absurd (ground (h, arith))
finish-first key keys ((j, v) ∷ m) h u =
    let same : j ≡ key = ground (h, arith) in
    let others : pending_keys m ≡ keys = ground (h, arith) in
    let here : text_eq j key ≡ true = (text_eq_iff j key).1 same in
    let missing : lookup key m ≡ none = rw same at (u.0) in
    rw here (rw (retain-missing key m missing) others)

module _ (per_minute now : ℕ) (key namespace source : Text) (s : State) where
  -- A call adds a job for a new key or leaves jobs and pending keys as they are.
  abbrev Changes : State → Type 0
  Changes t =
      ((t.jobs ≡ s.jobs) × (t.pending ≡ s.pending))
      ⊎ ((t.jobs ≡ s.jobs ++ record { key = key; source = source } ∷ [])
          × (t.pending ≡ insert key namespace s.pending)
          × (lookup key s.pending ≡ none)
          × (length s.pending < 128)
          × (count_of namespace s.pending < 2))

  submit_within-Changes :
      lookup key s.pending ≡ none
      → length s.pending < 128
      → count_of namespace s.pending < 2
      → Changes (submit_within per_minute now key namespace source s).0
  unfolding submit_within
  submit_within-Changes fresh room few = ground (fresh, room, few, arith)

  pub submit-Changes : Changes (submit per_minute now key namespace source s).0
  unfolding submit
  submit-Changes = elim (Bool-cases (contains_key key s.pending)) [
    | inl there ↦ rw there (inl (refl, refl))
    | inr absent ↦ rw absent (elim (Bool-cases (leb 128 (length s.pending))) [
      | inl full ↦ rw full (inl (refl, refl))
      | inr room ↦ rw room (elim (Bool-cases (leb 2 (count_of namespace s.pending))) [
        | inl many ↦ rw many (inl (refl, refl))
        | inr few ↦ rw few (
            submit_within-Changes (ground (absent, arith)) (ground (room, arith))
              (ground (few, arith)))
      ])
    ])
  ]

count_lem :
    (n key namespace : Text) (m : List (Text × Text))
    → lookup key m ≡ none
    → count_of namespace m < 2
    → count_of n m ≤ 2
    → count_of n (insert key namespace m) ≤ 2
count_lem n key namespace m fresh few most = elim (Bool-cases (text_eq namespace n)) [
  | inr other ↦ ground (count_of-insert n key namespace m fresh, other, most, arith)
  | inl same ↦
      let is : namespace ≡ n = (text_eq_iff namespace n).0 same in
      let less : count_of n m < 2 = rw is at few in
      ground (count_of-insert n key namespace m fresh, same, less, arith)
]

take_lem :
    (s t : State) (job : Job)
    → take_job s ≡ some (job, t)
    → IsSane (record { state = s; working = none })
    → IsSane (record { state = t; working = some job })
unfolding take_job
take_lem s t job is sane =
    elim s.jobs as (λ jobs. s.jobs ≡ jobs → IsSane (record { state = t; working = some job })) [
      | [] ↦ λ e. absurd (ground (rw e at is, arith))
      | first ∷ rest ↦ λ e.
          let same : some (first, record s { jobs = rest }) ≡ some (job, t) = rw e at is in
          let head_is : first ≡ job = ground (same, arith) in
          let tail_is : record s { jobs = rest } ≡ t = ground (same, arith) in
          let keys : pending_keys s.pending ≡ first.key ∷ keys_of rest = rw e at (sane.0) in
          rw (sym tail_is, sym head_is) (keys, sane.1, sane.2, sane.3)
    ]
      refl

submit-IsSane :
    (per_minute now : ℕ) (key namespace source : Text) (s : State) (w : Option Job)
    → IsSane (record { state = s; working = w })
    → IsSane (record { state = (submit per_minute now key namespace source s).0; working = w })
submit-IsSane per_minute now key namespace source s w sane =
    elim (submit-Changes per_minute now key namespace source s) [
      | inl same ↦ rw (same.0, same.1) sane
      | inr added ↦
          rw (added.0, added.1)
            (
              pending_keys-insert key namespace s.pending added.2
                  ∙ (ap (λ z. z ++ key ∷ []) sane.0
                      ∙ (append_assoc (working_key w) (keys_of s.jobs) (key ∷ [])
                          ∙ ap (λ z. working_key w ++ z)
                              (sym (
                                keys_of-append s.jobs
                                  (record { key = key; source = source } ∷ []))))),
              insert-IsUnique key namespace s.pending sane.1,
              ground (length-insert key namespace s.pending, added.3, added.2, arith),
              λ n. count_lem n key namespace s.pending added.2 added.4 (sane.3 n),
            )
    ]

pub step-IsSane : (r q : Run) → Step r q → IsSane r → IsSane q
unfolding finish
step-IsSane _ _ (submits per_minute now key namespace source s w) sane =
    submit-IsSane per_minute now key namespace source s w sane
step-IsSane _ _ (takes s t job is) sane = take_lem s t job is sane
step-IsSane _ _ (finishes s job) sane = (
  finish-first job.key (keys_of s.jobs) s.pending sane.0 sane.1,
  retain_entries-IsUnique (λ k ns. not (text_eq k job.key)) s.pending sane.1,
  ground (length-retain_entries-le (λ k ns. not (text_eq k job.key)) s.pending, sane.2, arith),
  λ n. ground (count_of-retain-le n (λ k ns. not (text_eq k job.key)) s.pending, sane.3 n, arith),
)

-- However calls of `submit` and the worker's steps interleave: the pending keys are the one in work
-- and then those of the waiting jobs, each once; there are at most 128, and at most two of a
-- namespace.
pub Reachable-IsSane : (r : Run) → Reachable r → IsSane r
Reachable-IsSane _ starts = (refl, tt, omega arith, λ n. omega arith)
Reachable-IsSane _ (steps r q before step) = step-IsSane r q step (Reachable-IsSane r before)
