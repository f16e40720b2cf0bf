-- ===== src/Service/Requests.antt =====
-- The calls of the job service as requests, and what each may do to the `jobs` table.
use qarau.Common.Tables.{find}
use Prim.Native.String.{String}
use qarau.Common.{ℕ, ◌+◌, ◌≡◌, Bool, false, List, [], ◌∷◌, some, ◌⊎◌}
use qarau.Common.Result.{Result, ok, err}
use qarau.Words.{Word}
use qarau.Jobs.{
  Job, JobType, fetch, asr, claim_job, unlock_job, mark_job_failed, mark_job_done, has_key, new_job,
}
use qarau.Store.{is_fetch_job, Store, exists, create_fetch_job_if_absent}
use qarau.Transcript.{complete_asr_job}
use qarau.Service.{Clock, RequestType, lease_job, complete_fetch_job, fail_job}

-- `enqueue` is CreateFetchJobIfAbsent, by which the api component adds a video.
pub data Request : Type 0 where
  lease : Clock → (ℕ → Bool) → String → RequestType → Request
  complete_fetch : Clock → String → ℕ → ℕ → List ℕ → List ℕ → Request
  complete_asr : Clock → String → ℕ → ℕ → String → List Word → Request
  fail : ℕ → String → String → Bool → Request
  enqueue : ℕ → String → ℕ → Request

-- The database after a transaction: rolled back if it failed.
abbrev pub after : {A : Type 0} → Store → Result (A × Store) → Store
after s (ok (a, t)) = t
after s (err e) = s

unfoldable pub serve : Request → Store → Store
serve (lease c locked worker ty) s = (lease_job c locked worker ty s).1
serve (complete_fetch c worker job video content filename) s =
    after s (complete_fetch_job c worker job video content filename s)
serve (complete_asr c worker job video model words) s =
    after s (complete_asr_job c worker job video model words s)
serve (fail job worker message final) s = after s (fail_job job worker message final s)
serve (enqueue video online now) s = after s (create_fetch_job_if_absent video online now s)

unfoldable pub run : Store → List Request → Store
run s [] = s
run s (r ∷ rs) = run (serve r s) rs

abbrev pub Inserted : ℕ → JobType → ℕ → List Job → ℕ → List Job → ℕ → Type 0
Inserted video ty now js n js' n' =
    (online : String) × (exists (has_key video ty) js ≡ false)
    × (js' ≡ new_job n video ty online now ∷ js)
    × (n' ≡ n + 1)

-- The statements on `jobs` that a request may come to: from the rows `js` and the next id `n` to
-- the rows `js'` and the next id `n'`.
abbrev pub Changed : Request → List Job → ℕ → List Job → ℕ → Type 0
Changed (lease c locked worker request) js n js' n' =
    (n' ≡ n)
    × ((js' ≡ js)
        ⊎ ((ty : JobType) × (until : ℕ) × (j : Job) × (claim_job ty worker until c.db locked js
              ≡ some (j, js'))))
Changed (complete_fetch c worker job video content filename) js n js' n' =
    ((n' ≡ n) × (js' ≡ js))
    ⊎ ((of : Job) × (mid : List Job) × (mark_job_done job fetch worker c.db js ≡ some mid)
        × (find (is_fetch_job job) mid ≡ some of)
        × Inserted of.video_id asr c.db mid n js' n')
Changed (complete_asr c worker job video model words) js n js' n' =
    (n' ≡ n) × ((js' ≡ js) ⊎ (mark_job_done job asr worker c.db js ≡ some js'))
Changed (fail job worker message final) js n js' n' =
    (n' ≡ n)
    × ((js' ≡ js)
        ⊎ (unlock_job message job worker js ≡ some js')
        ⊎ (mark_job_failed message job worker js ≡ some js'))
Changed (enqueue video online now) js n js' n' =
    ((n' ≡ n) × (js' ≡ js)) ⊎ Inserted video fetch now js n js' n'

-- What a transaction leaves, by its result.
abbrev pub Leaves : {A : Type 0} → Result (A × Store) → (Store → Type 0) → Type 0
Leaves (ok (a, t)) P = P t
Leaves (err e) P = Unit {0}
