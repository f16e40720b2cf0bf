-- ===== src/Service/Valid.antt =====
-- The invariant of the `jobs` table over every history of requests.
use Prim.Native.String.{String}
use native.Mathlib.Nat.{le_refl}
use qarau.Common.{inr, false, arith, inl, ◌≤◌, ℕ, ◌≡◌, List, [], ◌∷◌}
use qarau.Jobs.{fetch, asr, JobType, Job, has_key, new_job}
use qarau.Jobs.Valid.{
  mark_job_failed-IsValid, unlock_job-IsValid, IsValid, IsNew, claim_job-IsValid,
  mark_job_done-IsValid,
}
use qarau.Store.{Store, exists}
use qarau.Service.Requests.{
  complete_asr, complete_fetch, fail, enqueue, lease, Request, Changed, Inserted, serve, run,
}
use qarau.Service.Refines.{serve-Changed}

-- An id below the next one is new in a valid table, if the key is.
IsNew-new_job :
    (n m : ℕ) (v : ℕ) (ty : JobType) (online : String) (now : ℕ) (js : List Job)
    → n ≤ m
    → exists (has_key v ty) js ≡ false
    → IsValid n js
    → IsNew (new_job m v ty online now) js
unfolding exists
IsNew-new_job n m v ty online now [] le h val = tt
IsNew-new_job n m v ty online now (j ∷ js) le h (s, lt, new, val) = (
  λ e. absurd (omega arith),
  ground arith,
  IsNew-new_job n m v ty online now js le (ground arith) val,
)

IsValid-mono : (n m : ℕ) (js : List Job) → n ≤ m → IsValid n js → IsValid m js
IsValid-mono n m [] le v = tt
IsValid-mono n m (j ∷ js) le (s, lt, new, v) = (s, omega arith, new, IsValid-mono n m js le v)

Inserted-IsValid :
    (v : ℕ) (ty : JobType) (now : ℕ) (js : List Job) (n : ℕ) (js' : List Job) (n' : ℕ)
    → Inserted v ty now js n js' n'
    → IsValid n js
    → IsValid n' js'
Inserted-IsValid v ty now js n js' n' (online, fresh, rows, next) val = rw rows (
  record { lock = tt; capped = omega arith; tried = λ e. cc },
  omega arith,
  IsNew-new_job n n v ty online now js (le_refl n) fresh val,
  IsValid-mono n n' js (omega arith) val,
)

Changed-IsValid :
    (r : Request) (js : List Job) (n : ℕ) (js' : List Job) (n' : ℕ)
    → Changed r js n js' n'
    → IsValid n js
    → IsValid n' js'
Changed-IsValid (lease c locked w ty) js n js' n' (e, inl q) v = rw (e, q) v
Changed-IsValid (lease c locked w ty) js n js' n' (e, inr (t, until, j, q)) v =
    rw e (claim_job-IsValid t w until c.db locked n js q v)
Changed-IsValid (complete_fetch c w i x b f) js n js' n' (inl (e, q)) v = rw (e, q) v
Changed-IsValid (complete_fetch c w i x b f) js n js' n' (inr (o, mid, q, at, made)) v =
    Inserted-IsValid o.video_id asr c.db mid n js' n' made
      (mark_job_done-IsValid i fetch w c.db n js q v)
Changed-IsValid (complete_asr c w i x m ws) js n js' n' (e, inl q) v = rw (e, q) v
Changed-IsValid (complete_asr c w i x m ws) js n js' n' (e, inr q) v =
    rw e (mark_job_done-IsValid i asr w c.db n js q v)
Changed-IsValid (fail i w m f) js n js' n' (e, inl q) v = rw (e, q) v
Changed-IsValid (fail i w m f) js n js' n' (e, inr (inl q)) v =
    rw e (unlock_job-IsValid m i w n js q v)
Changed-IsValid (fail i w m f) js n js' n' (e, inr (inr q)) v =
    rw e (mark_job_failed-IsValid m i w n js q v)
Changed-IsValid (enqueue x o now) js n js' n' (inl (e, q)) v = rw (e, q) v
Changed-IsValid (enqueue x o now) js n js' n' (inr made) v =
    Inserted-IsValid x fetch now js n js' n' made v

abbrev pub IsValidStore : Store → Type 0
IsValidStore s = IsValid s.next_job s.jobs

pub serve-IsValid : (r : Request) (s : Store) → IsValidStore s → IsValidStore (serve r s)
serve-IsValid r s v =
    Changed-IsValid r s.jobs s.next_job (serve r s).jobs (serve r s).next_job (serve-Changed r s) v

-- From a database whose jobs table is valid (each row with at most its maximum of attempts, with
-- an owner and an end of lease exactly if it is running or done, and attempted if it is running;
-- ids distinct and below the next id; no two rows with the same video and type), every sequence
-- of leases, completions, failures and new fetch jobs leads to one whose table is valid.
pub run-IsValid : (s : Store) (rs : List Request) → IsValidStore s → IsValidStore (run s rs)
unfolding run
run-IsValid s [] v = v
run-IsValid s (r ∷ rs) v = run-IsValid (serve r s) rs (serve-IsValid r s v)
