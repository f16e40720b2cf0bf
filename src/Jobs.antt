-- ===== src/Jobs.antt =====
-- The `jobs` table (db/migrations/002_create_jobs.sql) and its SQL statements
-- (db/queries/jobs.sql, compiled into db/gen/jobs.sql.go). One statement is one atomic change of
-- the table; `now` is the database's clock, and a time is a number of microseconds.
pub mod Rows
pub mod Valid
use qarau.Common.Tables.{find, oldest, update_returning, update_where}
use Prim.Native.String.{String}
use text.Mathlib.Text.{◌==◌ as str_eq}
use qarau.Common.{
  ℕ, ◌+◌, Bool, true, false, not, ◌&&◌, ◌||◌, Option, none, some, List, [], ◌∷◌, ltb, leb, ◌==◌,
  if◌then◌else◌,
}

pub data JobType : Type 0 where
  fetch asr : JobType

pub data JobState : Type 0 where
  pending running done failed : JobState

pub record Job : Type 0 where
  pub id : ℕ
  pub video_id : ℕ
  pub job_type : JobType
  pub state : JobState
  pub locked_by : Option String
  pub locked_until : Option ℕ
  pub attempts : ℕ
  pub max_attempts : ℕ
  pub last_error : Option String
  pub online_video_id : String
  pub created_at : ℕ
  pub started_at : Option ℕ
  pub finished_at : Option ℕ

abbrev pub is_type : JobType → JobType → Bool
is_type fetch fetch = true
is_type asr asr = true
is_type _ _ = false

abbrev pub is_pending : JobState → Bool
is_pending pending = true
is_pending _ = false

abbrev pub is_running : JobState → Bool
is_running running = true
is_running _ = false

-- SQL comparisons with NULL do not hold.
abbrev pub before : Option ℕ → ℕ → Bool
before none now = false
before (some t) now = ltb t now

abbrev pub is_held_by : Option String → String → Bool
is_held_by none worker = false
is_held_by (some holder) worker = str_eq holder worker

abbrev pub coalesce : Option ℕ → ℕ → Option ℕ
coalesce none now = some now
coalesce (some t) now = some t

-- The WHERE clause of ClaimJob. `locked` tells the rows that another transaction holds, which
-- SKIP LOCKED leaves out.
unfoldable pub is_claimable : JobType → ℕ → (ℕ → Bool) → Job → Bool
is_claimable ty now locked j =
    is_type j.job_type ty
    && ltb j.attempts j.max_attempts
    && (is_pending j.state || is_running j.state && before j.locked_until now)
    && not (locked j.id)

-- The SET clause of ClaimJob.
abbrev pub claimed : String → ℕ → ℕ → Job → Job
claimed worker until now j = record j {
  state = running;
  locked_by = some worker;
  locked_until = some until;
  attempts = j.attempts + 1;
  started_at = coalesce j.started_at now;
}

abbrev pub has_id : ℕ → Job → Bool
has_id id j = j.id == id

-- ClaimJob: the claimed row as it was, and the table after.
unfoldable pub claim_job :
    JobType → String → ℕ → ℕ → (ℕ → Bool) → List Job → Option (Job × List Job)
claim_job ty worker until now locked jobs =
    elim (oldest Job.created_at (is_claimable ty now locked) jobs) [
      | none ↦ none
      | some j ↦ some (j, update_where (has_id j.id) (claimed worker until now) jobs)
    ]

abbrev pub is_lease : ℕ → String → Job → Bool
is_lease id worker j = has_id id j && is_running j.state && is_held_by j.locked_by worker

abbrev pub is_typed_lease : ℕ → JobType → String → Job → Bool
is_typed_lease id ty worker j = is_lease id worker j && is_type j.job_type ty

abbrev pub finished : ℕ → Job → Job
finished now j = record j { state = done; last_error = none; finished_at = some now }

abbrev pub gave_up : String → Job → Job
gave_up message j = record j {
  state = failed;
  locked_by = none;
  locked_until = none;
  last_error = some message;
}

abbrev pub unlocked : String → Job → Job
unlocked message j = record j {
  state = pending;
  locked_by = none;
  locked_until = none;
  last_error = some message;
}

unfoldable pub mark_job_done : ℕ → JobType → String → ℕ → List Job → Option (List Job)
mark_job_done id ty worker now = update_returning (is_typed_lease id ty worker) (finished now)

unfoldable pub mark_job_failed : String → ℕ → String → List Job → Option (List Job)
mark_job_failed message id worker = update_returning (is_lease id worker) (gave_up message)

unfoldable pub unlock_job : String → ℕ → String → List Job → Option (List Job)
unlock_job message id worker = update_returning (is_lease id worker) (unlocked message)

-- GetJob and CheckLease: the row of an id.
unfoldable pub get_job : ℕ → List Job → Option Job
get_job id = find (has_id id)

-- A new row, with the defaults of the table's columns.
abbrev pub new_job : ℕ → ℕ → JobType → String → ℕ → Job
new_job id video ty online now = record {
  id = id;
  video_id = video;
  job_type = ty;
  state = pending;
  locked_by = none;
  locked_until = none;
  attempts = 0;
  max_attempts = 3;
  last_error = none;
  online_video_id = online;
  created_at = now;
  started_at = none;
  finished_at = none;
}

-- The key of the constraint uniq_active_job.
abbrev pub has_key : ℕ → JobType → Job → Bool
has_key video ty j = j.video_id == video && is_type j.job_type ty
