-- ===== src/Service/Refines.antt =====
-- Each call of the job service comes to a few statements on the `jobs` table: the proofs go
-- through the transactions of Service.antt and Transcript.antt, one rule for `>>=`.
use qarau.Service.Transactions.{
  complete_fetch_job-FetchDone, store_transcription-Marked, after-Leaves, FetchDone, Marked,
  insert_job-Inserted,
}
use qarau.Common.Int.{ℤ}
use Prim.Native.String.{String}
use qarau.Common.{
  none, not, ◌&&◌, Option, inr, Bool-cases, inl, ℕ, ◌+◌, ◌≡◌, refl, Bool, List, some, arith,
}
use qarau.Common.Result.{no_rows, Result, ok, err}
use qarau.Words.{Word}
use qarau.Jobs.{is_type, Job, JobType, fetch, asr, claim_job}
use qarau.Store.{insert_job, Store, create_fetch_job_if_absent}
use qarau.Transcript.{store_transcription, complete_asr_job, get_video_duration}
use qarau.Service.{
  check_quota_ok, request_asr, request_fetch, unspecified, lock_period, answer_claim,
  convert_job_type, lease_typed, Clock, RequestType, lease_job, complete_fetch_job, fail_job,
}
use qarau.Service.Requests.{
  Request, lease, complete_fetch, complete_asr, fail, enqueue, after, serve, Inserted, Changed,
  Leaves,
}

lease_typed-Changed :
    (c : Clock) (locked : ℕ → Bool) (w : String) (r : RequestType) (ty : JobType) (s : Store)
    → let t = (lease_typed c locked w r ty s).1 in
      Changed (lease c locked w r) s.jobs s.next_job t.jobs t.next_job
unfolding lease_typed answer_claim
lease_typed-Changed c locked w r ty s =
    elim (Bool-cases (is_type ty asr && not (check_quota_ok c s))) [
      | inl e ↦ rw e (refl, inl refl)
      | inr e ↦ rw e (go (claim_job ty w (c.app + lock_period ty) c.db locked s.jobs) refl)
    ]
  where
    go :
        (o : Option (Job × List Job))
        → claim_job ty w (c.app + lock_period ty) c.db locked s.jobs ≡ o
        → let t = (answer_claim r s o).1 in
          Changed (lease c locked w r) s.jobs s.next_job t.jobs t.next_job
    go none e = (refl, inl refl)
    go (some (j, js)) e = (refl, inr (ty, c.app + lock_period ty, j, e))

lease_job-Changed :
    (c : Clock) (locked : ℕ → Bool) (w : String) (r : RequestType) (s : Store)
    → let t = (lease_job c locked w r s).1 in
      Changed (lease c locked w r) s.jobs s.next_job t.jobs t.next_job
unfolding lease_job convert_job_type
lease_job-Changed c locked w request_asr s = lease_typed-Changed c locked w request_asr asr s
lease_job-Changed c locked w request_fetch s = lease_typed-Changed c locked w request_fetch fetch s
lease_job-Changed c locked w unspecified s = (refl, inl refl)

complete_asr_job-Marked :
    (c : Clock) (w : String) (i v : ℕ) (m : String) (ws : List Word) (s : Store)
    → Leaves (complete_asr_job c w i v m ws s) (Marked i asr w c.db s)
unfolding complete_asr_job
complete_asr_job-Marked c w i v m ws s = go (get_video_duration v s)
  where
    go :
        (r : Result ℤ)
        → Leaves
            (elim r [ err e ↦ err e | ok used ↦ store_transcription c w i v m ws used s ])
            (Marked i asr w c.db s)
    go (ok used) = store_transcription-Marked c w i v m ws used s
    go (err e) = tt

complete_asr_job-Changed :
    (c : Clock) (w : String) (i v : ℕ) (m : String) (ws : List Word) (s : Store)
    → let t = after s (complete_asr_job c w i v m ws s) in
      Changed (complete_asr c w i v m ws) s.jobs s.next_job t.jobs t.next_job
complete_asr_job-Changed c w i v m ws s =
    after-Leaves (λ t. Changed (complete_asr c w i v m ws) s.jobs s.next_job t.jobs t.next_job) s
      (complete_asr_job c w i v m ws s)
      (weaken (complete_asr_job c w i v m ws s) (complete_asr_job-Marked c w i v m ws s))
      (refl, inl refl)
  where
    weaken :
        (r : Result (ℕ × Store))
        → Leaves r (Marked i asr w c.db s)
        → Leaves r (λ t. Changed (complete_asr c w i v m ws) s.jobs s.next_job t.jobs t.next_job)
    weaken (ok (a, t)) l = (l.0, inr l.1)
    weaken (err e) l = tt

complete_fetch_job-Changed :
    (c : Clock) (w : String) (i v : ℕ) (b : List ℕ) (f : List ℕ) (s : Store)
    → let t = after s (complete_fetch_job c w i v b f s) in
      Changed (complete_fetch c w i v b f) s.jobs s.next_job t.jobs t.next_job
complete_fetch_job-Changed c w i v b f s =
    after-Leaves (λ t. Changed (complete_fetch c w i v b f) s.jobs s.next_job t.jobs t.next_job) s
      (complete_fetch_job c w i v b f s)
      (weaken (complete_fetch_job c w i v b f s) (complete_fetch_job-FetchDone c w i v b f s))
      (inl (refl, refl))
  where
    weaken :
        (r : Result (Unit {0} × Store))
        → Leaves r (FetchDone i w c.db s)
        → Leaves r (λ t. Changed (complete_fetch c w i v b f) s.jobs s.next_job t.jobs t.next_job)
    weaken (ok (a, t)) l = inr l
    weaken (err e) l = tt

fail_job-Changed :
    (i : ℕ) (w m : String) (f : Bool) (s : Store)
    → let t = after s (fail_job i w m f s) in
      Changed (fail i w m f) s.jobs s.next_job t.jobs t.next_job
unfolding fail_job
fail_job-Changed i w m f s = ground arith

enqueue-Changed :
    (v : ℕ) (online : String) (now : ℕ) (s : Store)
    → let t = after s (create_fetch_job_if_absent v online now s) in
      Changed (enqueue v online now) s.jobs s.next_job t.jobs t.next_job
unfolding create_fetch_job_if_absent
enqueue-Changed v online now s =
    go (insert_job v fetch online now s) (insert_job-Inserted v fetch online now s)
  where
    go :
        (r : Result (ℕ × Store))
        → Leaves r (λ u. Inserted v fetch now s.jobs s.next_job u.jobs u.next_job)
        → let t = after s (elim r [ err e ↦ err no_rows | ok q ↦ ok q ]) in
          Changed (enqueue v online now) s.jobs s.next_job t.jobs t.next_job
    go (ok (a, t)) l = inr l
    go (err e) l = inl (refl, refl)

-- What each call does to the table of jobs, whatever its answer: a lease changes nothing or runs
-- one ClaimJob for its worker by the database's clock; a completed download changes nothing or runs
-- MarkJobDone for a fetch job and adds one new asr job; a completed transcription changes nothing
-- or runs MarkJobDone for an asr job; a failure changes nothing or runs one UnlockJob or one
-- MarkJobFailed for its worker's job; and a new fetch job is added only where no row has its key.
pub serve-Changed :
    (r : Request) (s : Store) → Changed r s.jobs s.next_job (serve r s).jobs (serve r s).next_job
unfolding serve
serve-Changed (lease c locked w ty) s = lease_job-Changed c locked w ty s
serve-Changed (complete_fetch c w i v b f) s = complete_fetch_job-Changed c w i v b f s
serve-Changed (complete_asr c w i v m ws) s = complete_asr_job-Changed c w i v m ws s
serve-Changed (fail i w m f) s = fail_job-Changed i w m f s
serve-Changed (enqueue v online now) s = enqueue-Changed v online now s
