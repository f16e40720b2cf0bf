-- ===== src/Service/Answers.antt =====
-- The answers of the job service: which job a lease hands out, when a lease is found valid, and
-- what becomes of a job that a worker reports as failed.
use qarau.Common.Tables.{find-In, update_where}
use Prim.Native.String.{String}
use text.Mathlib.Text.{◌==◌ as str_eq}
use text.Mathlib.TextEquality.{eq_iff}
use qarau.Common.{
  ltb, if◌then◌else◌, ℕ, ◌≤◌, ◌≡◌, refl, ◌≢◌, ◌↔◌, ◌⊎◌, inl, inr, Bool, true, Option, none, some,
  arith, Bool-cases, ◌&&◌, not,
}
use qarau.Common.Result.{ok, err, panic}
use qarau.Jobs.{
  Job, JobState, pending, running, done, failed, get_job, has_id, gave_up, unlocked, unlock_job,
  mark_job_failed, is_lease,
}
use qarau.Jobs.Rows.{update_returning_lem, get_job-id}
use qarau.Jobs.Valid.{IsSound, IsLocked, In-IsSound}
use qarau.Service.{check_row, Clock, check_lease, fail_job, fail_row}
use qarau.Service.Valid.{IsValidStore}
use qarau.Store.{Store}

get_job-IsSound :
    (s : Store) (i : ℕ) (j : Job) → IsValidStore s → get_job i s.jobs ≡ some j → IsSound j
unfolding get_job
get_job-IsSound s i j v at = In-IsSound s.next_job j s.jobs (find-In (has_id i) s.jobs j at).0 v

abbrev pub IsCurrent : Clock → String → JobState → Option String → Option ℕ → Type 0
IsCurrent c w st by until =
    (t : ℕ) × (st ≡ running) × (by ≡ some w) × (until ≡ some t) × (c.app ≤ t)

check_row_lem :
    (c : Clock) (w : String) (st : JobState) (by : Option String) (until : Option ℕ)
    → IsLocked st by until
    → ((check_row c w st by until ≡ ok true) ↔ IsCurrent c w st by until)
      × ((check_row c w st by until ≡ err panic) ↔ ((st ≡ pending) ⊎ (st ≡ failed)))
check_row_lem c w running (some u) (some t) l = (
  (
    λ e. (t, refl, ground (arith, eq_iff u w), refl, ground arith),
    λ h. ground (arith, eq_iff u w, h),
  ),
  (λ e. ground arith, λ e. ground arith),
)
check_row_lem c w done (some u) (some t) l =
    ((λ e. ground arith, λ h. ground (arith, h)), (λ e. ground arith, λ e. ground arith))
check_row_lem c w pending none none l =
    ((λ e. ground arith, λ h. ground (arith, h)), (λ e. ground arith, λ e. ground arith))
check_row_lem c w failed none none l =
    ((λ e. ground arith, λ h. ground (arith, h)), (λ e. ground arith, λ e. ground arith))
check_row_lem c w _ _ _ l = absurd l

-- What CheckLease answers on the row of a valid table: yes exactly if the job is running, leased
-- to this worker, and the lease has not ended by the clock of the api process; and the nil pointer
-- of `locked_by` is followed exactly if the job is pending or failed.
pub check_lease_lem :
    (c : Clock) (i : ℕ) (w : String) (s : Store) (j : Job)
    → IsValidStore s
    → get_job i s.jobs ≡ some j
    → ((check_lease c i w s ≡ ok true) ↔ IsCurrent c w j.state j.locked_by j.locked_until)
      × ((check_lease c i w s ≡ err panic) ↔ ((j.state ≡ pending) ⊎ (j.state ≡ failed)))
unfolding check_lease
check_lease_lem c i w s j v at =
    rw (at, check_lease)
      (check_row_lem c w j.state j.locked_by j.locked_until (get_job-IsSound s i j v at).lock)

-- The row after a worker reports its running job as failed.
abbrev pub after_failure : String → Bool → Job → Job
after_failure message final j =
    if ltb j.attempts j.max_attempts && not final then unlocked message j else gave_up message j

-- A worker that owns a running job and reports it as failed: the job goes back to pending, without
-- an owner, if it has attempts left and the failure is not final, and becomes failed otherwise; the
-- message is stored, and no other row changes.
pub fail_job_lem :
    (i : ℕ) (w message : String) (final : Bool) (s : Store) (j : Job)
    → get_job i s.jobs ≡ some j
    → j.state ≡ running
    → j.locked_by ≡ some w
    → (t : Store) × (fail_job i w message final s ≡ ok (tt, t))
      × (get_job i t.jobs ≡ some (after_failure message final j))
      × ((k : ℕ) → k ≢ i → get_job k t.jobs ≡ get_job k s.jobs)
unfolding fail_job fail_row mark_job_failed unlock_job
fail_job_lem i w message final s j at runs held =
    elim (Bool-cases (ltb j.attempts j.max_attempts && not final)) [
      | inl e ↦
          let (done', row, others) =
            update_returning_lem (is_lease i w) (unlocked message) i s.jobs j (λ k. refl) at mine
              only in
          (
            record s { jobs = update_where (is_lease i w) (unlocked message) s.jobs },
            rw (at, fail_job) (rw (runs, held, mine', e, done') refl),
            rw e row,
            others,
          )
      | inr e ↦
          let (done', row, others) =
            update_returning_lem (is_lease i w) (gave_up message) i s.jobs j (λ k. refl) at mine
              only in
          (
            record s { jobs = update_where (is_lease i w) (gave_up message) s.jobs },
            rw (at, fail_job) (rw (runs, held, mine', e, done') refl),
            rw e row,
            others,
          )
    ]
  where
    mine' : str_eq w w ≡ true
    mine' = (eq_iff w w).1 refl

    mine : is_lease i w j ≡ true
    mine = ground (arith, get_job-id i s.jobs j at, mine')

    only : (k : Job) → is_lease i w k ≡ true → k.id ≡ i
    only k h = ground arith
