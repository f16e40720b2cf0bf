-- ===== src/Service/Grants.antt =====
-- Which job a lease hands out: the oldest that can be claimed, and it becomes the worker's.
use qarau.Common.Tables.{In, IsOldest, find-In, find-some, oldest, oldest-IsOldest, update_where}
use Prim.Native.String.{String}
use qarau.Common.{
  ◌⊎◌, ℕ, ◌+◌, ◌≤◌, ◌≡◌, refl, ap, ◌∙◌, ◌≢◌, Bool, true, false, Option, none, some, List, arith,
  Bool-cases, ◌&&◌, not, inl, inr,
}
use qarau.Common.Result.{Result, ok, err}
use qarau.Jobs.{
  fetch, Job, JobType, asr, get_job, is_claimable, claim_job, claimed, has_id, is_type,
}
use qarau.Jobs.Rows.{update_returning_lem}
use qarau.Jobs.Valid.{IsValid, In-unique}
use qarau.Service.{
  Clock, RequestType, request_asr, request_fetch, unspecified, LeasedJob, lease_job, lease_typed,
  answer_claim, check_quota_ok, lock_period, convert_job_type,
}
use qarau.Service.Valid.{IsValidStore}
use qarau.Store.{Store}

-- The row j is claimable, no claimable row is older, and the table js' is js with the row of j,
-- and no other, given to the worker.
abbrev pub IsClaim : JobType → String → ℕ → ℕ → (ℕ → Bool) → List Job → Job → List Job → Type 0
IsClaim ty w until now locked js j js' =
    (get_job j.id js ≡ some j)
    × (is_claimable ty now locked j ≡ true)
    × ((k : Job) → In k js → is_claimable ty now locked k ≡ true → j.created_at ≤ k.created_at)
    × (get_job j.id js' ≡ some (claimed w until now j))
    × ((k : ℕ) → k ≢ j.id → get_job k js' ≡ get_job k js)

abbrev pub ClaimResult :
    JobType → String → ℕ → ℕ → (ℕ → Bool) → List Job → Option (Job × List Job) → Type 0
ClaimResult ty w until now locked js none =
    (k : Job) → In k js → is_claimable ty now locked k ≡ false
ClaimResult ty w until now locked js (some (j, js')) = IsClaim ty w until now locked js j js'

get_job_of_In :
    (n : ℕ) (j : Job) (js : List Job) → IsValid n js → In j js → get_job j.id js ≡ some j
unfolding get_job
get_job_of_In n j js v m =
    let (k, e) = find-some (has_id j.id) js j m (ground arith) in
    let found : In k js × (has_id j.id k ≡ true) = find-In (has_id j.id) js k e in
    e ∙ ap some (In-unique n j k js v m found.0 (ground arith))

-- ClaimJob on a valid table: it takes a claimable row than which no claimable row is older, makes
-- it running and the worker's, with one more attempt, and changes no other row; and it takes none
-- only if no row is claimable.
pub claim_job_lem :
    (ty : JobType) (w : String) (until now : ℕ) (locked : ℕ → Bool) (n : ℕ) (js : List Job)
    → IsValid n js
    → ClaimResult ty w until now locked js (claim_job ty w until now locked js)
unfolding claim_job
claim_job_lem ty w until now locked n js v =
    go (oldest Job.created_at (is_claimable ty now locked) js)
      (oldest-IsOldest Job.created_at (is_claimable ty now locked) js)
  where
    go :
        (o : Option Job)
        → IsOldest Job.created_at (is_claimable ty now locked) js o
        → ClaimResult ty w until now locked js (elim o [
          | none ↦ none
          | some j ↦ some (j, update_where (has_id j.id) (claimed w until now) js)
        ])
    go none h = h
    go (some j) (m, c, least) =
        let at : get_job j.id js ≡ some j = get_job_of_In n j js v m in
        let (done', row, others) =
          update_returning_lem (has_id j.id) (claimed w until now) j.id js j (λ k. refl) at
            (ground arith) (λ k h. ground arith) in
        (at, c, least, row, others)

-- What a granted lease says of the job, and of the database after it.
abbrev pub IsGranted :
    Clock → (ℕ → Bool) → String → Store → LeasedJob → Store → JobType → Job → Type 0
IsGranted c locked w s l t ty j =
    (l.id ≡ j.id)
    × (l.video_id ≡ j.video_id)
    × IsClaim ty w (c.app + lock_period ty) c.db locked s.jobs j t.jobs

abbrev pub LeaseResult :
    Clock → (ℕ → Bool) → String → JobType → Store → Result (Option LeasedJob) × Store → Type 0
LeaseResult c locked w ty s (err e, t) = ⊥
LeaseResult c locked w ty s (ok none, t) =
    (t ≡ s)
    × (((k : Job) → In k s.jobs → is_claimable ty c.db locked k ≡ false)
        ⊎ (ty ≡ asr) × (check_quota_ok c s ≡ false))
LeaseResult c locked w ty s (ok (some l), t) =
    (j : Job) × IsGranted c locked w s l t ty j × ((ty ≡ fetch) ⊎ (check_quota_ok c s ≡ true))

within_quota :
    (ty : JobType) (left : Bool)
    → (is_type ty asr && not left) ≡ false
    → (ty ≡ fetch) ⊎ (left ≡ true)
within_quota fetch left e = inl refl
within_quota asr left e = inr (ground arith)

lease_typed_lem :
    (c : Clock) (locked : ℕ → Bool) (w : String) (r : RequestType) (ty : JobType) (s : Store)
    → convert_job_type r ≡ ok ty
    → IsValidStore s
    → LeaseResult c locked w ty s (lease_typed c locked w r ty s)
unfolding lease_typed answer_claim convert_job_type
lease_typed_lem c locked w r ty s e v =
    elim (Bool-cases (is_type ty asr && not (check_quota_ok c s))) [
      | inl q ↦ rw q (refl, inr (ground arith))
      | inr q ↦ rw q (
          go r e (within_quota ty (check_quota_ok c s) q)
            (claim_job ty w (c.app + lock_period ty) c.db locked s.jobs)
            (claim_job_lem ty w (c.app + lock_period ty) c.db locked s.next_job s.jobs v))
    ]
  where
    go :
        (r : RequestType)
        → convert_job_type r ≡ ok ty
        → (ty ≡ fetch) ⊎ (check_quota_ok c s ≡ true)
        → (o : Option (Job × List Job))
        → ClaimResult ty w (c.app + lock_period ty) c.db locked s.jobs o
        → LeaseResult c locked w ty s (answer_claim r s o)
    go r e q none h = (refl, inl h)
    go request_asr e q (some (j, js)) h = (j, (refl, refl, h), q)
    go request_fetch e q (some (j, js)) h = (j, (refl, refl, h), q)
    go unspecified e q (some (j, js)) h = cc

-- LeaseJob for a known type, on a valid table, never fails. It hands out a claimable job of the
-- type than which no claimable one is older, now running under this worker with one more attempt
-- and a lease of lock_period from the clock of the api process, with every other row unchanged, and
-- an ASR job only while the quota of the day is not used up; or it hands out none and changes
-- nothing, because no row is claimable or because an ASR job is asked for and that quota is used
-- up.
pub lease_job_lem :
    (c : Clock) (locked : ℕ → Bool) (w : String) (r : RequestType) (ty : JobType) (s : Store)
    → convert_job_type r ≡ ok ty
    → IsValidStore s
    → LeaseResult c locked w ty s (lease_job c locked w r s)
unfolding lease_job
lease_job_lem c locked w r ty s e v = rw (e, lease_job) (lease_typed_lem c locked w r ty s e v)
