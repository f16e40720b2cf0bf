-- ===== src/Videos/Consistent.antt =====
-- Every call of the job service keeps the jobs table such that GetVideoProcess finds it
-- consistent.
use qarau.Service.Requests.{
  complete_fetch, complete_asr, fail, lease, enqueue, Request, Changed, serve, run,
}
use qarau.Jobs.Valid.{mark_job_done-IsValid, IsValid}
use qarau.Service.Refines.{serve-Changed}
use qarau.Videos.Followed.{
  new_job-IsFollowed, update_returning-IsFollowed, complete_fetch-IsFollowed, claim_job-IsFollowed,
  IsFollowed,
}
use qarau.Service.Valid.{serve-IsValid, IsValidStore}
use qarau.Common.{[], refl, arith, inr, inl, ℕ, ◌∷◌, List}
use qarau.Store.{Store}
use qarau.Jobs.{
  gave_up, unlocked, finished, asr, fetch, Job, unlock_job, mark_job_failed, mark_job_done,
  is_typed_lease, is_lease,
}

abbrev pub IsConsistent : Store → Type 0
IsConsistent s = IsValidStore s × IsFollowed s.jobs

Changed-IsFollowed :
    (r : Request) (js : List Job) (n : ℕ) (js' : List Job) (n' : ℕ)
    → Changed r js n js' n'
    → IsValid n js
    → IsFollowed js
    → IsFollowed js'
unfolding mark_job_done mark_job_failed unlock_job
Changed-IsFollowed (lease c l w ty) js n js' n' (e, inl q) v h = rw q h
Changed-IsFollowed (lease c l w ty) js n js' n' (e, inr (t, until, k, q)) v h =
    claim_job-IsFollowed t w until c.db l js q h
Changed-IsFollowed (complete_fetch c w i x b f) js n js' n' (inl (e, q)) v h = rw q h
Changed-IsFollowed (complete_fetch c w i x b f) js n js' n'
      (inr (of, mid, q, at, (online, fresh, rows, next))) v h =
    rw rows (
      complete_fetch-IsFollowed i w c.db n js mid of online q at
        (mark_job_done-IsValid i fetch w c.db n js q v) h)
Changed-IsFollowed (complete_asr c w i x m ws) js n js' n' (e, inl q) v h = rw q h
Changed-IsFollowed (complete_asr c w i x m ws) js n js' n' (e, inr q) v h =
    update_returning-IsFollowed (is_typed_lease i asr w) (finished c.db) js
      (λ k. (refl, refl, refl)) (λ k t ty st. ground arith) q h
Changed-IsFollowed (fail i w m f) js n js' n' (e, inl q) v h = rw q h
Changed-IsFollowed (fail i w m f) js n js' n' (e, inr (inl q)) v h =
    update_returning-IsFollowed (is_lease i w) (unlocked m) js (λ k. (refl, refl, refl))
      (λ k t ty st. cc) q h
Changed-IsFollowed (fail i w m f) js n js' n' (e, inr (inr q)) v h =
    update_returning-IsFollowed (is_lease i w) (gave_up m) js (λ k. (refl, refl, refl))
      (λ k t ty st. cc) q h
Changed-IsFollowed (enqueue x o now) js n js' n' (inl (e, q)) v h = rw q h
Changed-IsFollowed (enqueue x o now) js n js' n' (inr (online, fresh, rows, next)) v h =
    rw rows (new_job-IsFollowed n x fetch online now js h)

pub serve-IsConsistent : (r : Request) (s : Store) → IsConsistent s → IsConsistent (serve r s)
serve-IsConsistent r s (v, h) = (
  serve-IsValid r s v,
  Changed-IsFollowed r s.jobs s.next_job (serve r s).jobs (serve r s).next_job (serve-Changed r s) v
      h,
)

pub run-IsConsistent : (s : Store) (rs : List Request) → IsConsistent s → IsConsistent (run s rs)
unfolding run
run-IsConsistent s [] h = h
run-IsConsistent s (r ∷ rs) h = run-IsConsistent (serve r s) rs (serve-IsConsistent r s h)
