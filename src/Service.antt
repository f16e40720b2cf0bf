-- ===== src/Service.antt =====
-- JobService (internal/api/job_service.go): leases, downloads and failures, with GetTodayForQuota
-- of internal/quota/quota.go. A call returns its answer and the database after
-- it. Calls run one after the other; the rows that other transactions lock meanwhile are an
-- argument of a lease.
pub mod Requests
pub mod Transactions
pub mod Refines
pub mod Valid
pub mod Untouched
pub mod Leases
pub mod Answers
pub mod Grants
pub mod Replaced
pub mod Numbered
pub mod Stored
use Prim.Native.String.{String}
use text.Mathlib.Text.{◌==◌ as str_eq}
use qarau.Common.{
  ℕ, suc, ◌+◌, ◌-◌, ◌*◌, ◌/◌, ◌%◌, Bool, true, false, not, ◌&&◌, Option, none, some, List, [], ◌∷◌,
  ltb, ◌==◌, if◌then◌else◌,
}
use qarau.Common.Int.{ℤ, pos, negsuc, ◌+ℤ◌, quot, ltb_ℤ}
use qarau.Common.Result.{
  Result, ok, err, no_rows, unknown_job_type, unexpected_state, not_owner, panic,
}
use qarau.Common.Result
use qarau.Words.{Word}
use qarau.Jobs.{
  Job, JobType, fetch, asr, JobState, is_type, is_running, is_held_by, claim_job, get_job,
  unlock_job, mark_job_failed,
}
use qarau.Store.{
  Store, Video, WordRow, AudioBlob, Tx, ◌>>=◌, ◌>>◌, return, create_audio_blob, complete_job,
  create_asr_job, upsert_transcription, delete_words, delete_sentences, insert_words, get_asr_quota,
  upsert_asr_quota,
}

-- The clock of the api process, from which leases end, and that of the database, by which
-- ClaimJob finds a lease to be over. Microseconds since 1970.
pub record Clock : Type 0 where
  pub app : ℕ
  pub db : ℕ

-- The enum of proto/qarau/v1/job_type.proto.
pub data RequestType : Type 0 where
  unspecified request_fetch request_asr : RequestType

pub data Payload : Type 0 where
  fetch_job : String → Payload
  asr_job : Payload

pub record LeasedJob : Type 0 where
  pub id : ℕ
  pub video_id : ℕ
  pub request_type : RequestType
  pub payload : Payload

unfoldable pub convert_job_type : RequestType → Result JobType
convert_job_type request_asr = ok asr
convert_job_type request_fetch = ok fetch
convert_job_type unspecified = err unknown_job_type

unfoldable pub prepare_job_payload : RequestType → String → Result Payload
prepare_job_payload request_fetch online = ok (fetch_job online)
prepare_job_payload request_asr online = ok asr_job
prepare_job_payload unspecified online = err unknown_job_type

abbrev pub second : ℕ
second = 1000000

abbrev pub daily_quota_seconds : ℕ
daily_quota_seconds = 36000

-- GetDayForQuota: the day in the zone KZ_TZ, five hours ahead, as days since 1970.
unfoldable pub quota_day : ℕ → ℕ
quota_day t = (t / second + 5 * 60 * 60) / 86400

abbrev quota_left : Option ℤ → Bool
quota_left none = true
quota_left (some used) = ltb_ℤ used (pos daily_quota_seconds)

unfoldable pub check_quota_ok : Clock → Store → Bool
unfolding quota_day
check_quota_ok c s = quota_left (get_asr_quota (quota_day c.app) s.quota)

-- How long a lease lasts: an hour for a transcription, five minutes for a download.
unfoldable pub lock_period : JobType → ℕ
lock_period asr = 60 * 60 * second
lock_period fetch = 5 * 60 * second

abbrev leased : RequestType → Job → Payload → Option LeasedJob
leased ty j p = some (record { id = j.id; video_id = j.video_id; request_type = ty; payload = p })

abbrev answer : RequestType → Job → Result Payload → Result (Option LeasedJob)
answer ty j (ok p) = ok (leased ty j p)
answer ty j (err e) = err e

unfoldable pub answer_claim :
    RequestType → Store → Option (Job × List Job) → Result (Option LeasedJob) × Store
unfolding prepare_job_payload
answer_claim ty s none = (ok none, s)
answer_claim ty s (some (j, jobs)) =
    (answer ty j (prepare_job_payload ty j.online_video_id), record s { jobs = jobs })

unfoldable pub lease_typed :
    Clock → (ℕ → Bool) → String → RequestType → JobType → Store → Result (Option LeasedJob) × Store
unfolding check_quota_ok lock_period answer_claim
lease_typed c locked worker request ty s =
    if is_type ty asr && not (check_quota_ok c s)
    then (ok none, s)
    else answer_claim request s (claim_job ty worker (c.app + lock_period ty) c.db locked s.jobs)

-- LeaseJob
unfoldable pub lease_job :
    Clock → (ℕ → Bool) → String → RequestType → Store → Result (Option LeasedJob) × Store
unfolding convert_job_type lease_typed
lease_job c locked worker request s = elim (convert_job_type request) [
  | err e ↦ (err e, s)
  | ok ty ↦ lease_typed c locked worker request ty s
]

-- CompleteFetchJob
unfoldable pub complete_fetch_job : Clock → String → ℕ → ℕ → List ℕ → List ℕ → Tx (Unit {0})
unfolding create_audio_blob complete_job create_asr_job
complete_fetch_job c worker job video content filename = do
  create_audio_blob video content filename
  complete_job job fetch worker c.db
  asr_id ← create_asr_job job c.db
  return tt

-- The rest of CheckLease, on the row that it has loaded. `*row.LockedBy` follows a nil pointer
-- where the column is NULL; a NULL `locked_until` reads as the zero time, which has passed.
abbrev pub check_row : Clock → String → JobState → Option String → Option ℕ → Result Bool
check_row c worker state none until = err panic
check_row c worker state (some holder) none = ok false
check_row c worker state (some holder) (some t) =
    if not (str_eq holder worker)
    then ok false
    else if ltb t c.app
    then ok false
    else if not (is_running state)
    then ok false
    else ok true

-- CheckLease
unfoldable pub check_lease : Clock → ℕ → String → Store → Result Bool
check_lease c job worker s = elim (get_job job s.jobs) [
  | none ↦ ok false
  | some j ↦ check_row c worker j.state j.locked_by j.locked_until
]

-- An update of the table that must have met a row.
abbrev put_jobs : Store → Option (List Job) → Result (Unit {0} × Store)
put_jobs s none = err no_rows
put_jobs s (some jobs) = ok (tt, record s { jobs = jobs })

-- FailJob, on the row that it has loaded.
unfoldable pub fail_row : Job → ℕ → String → String → Bool → Tx (Unit {0})
fail_row j job worker message final s =
    if not (is_running j.state)
    then err unexpected_state
    else if not (is_held_by j.locked_by worker)
    then err not_owner
    else if ltb j.attempts j.max_attempts && not final
    then put_jobs s (unlock_job message job worker s.jobs)
    else put_jobs s (mark_job_failed message job worker s.jobs)

-- FailJob
unfoldable pub fail_job : ℕ → String → String → Bool → Tx (Unit {0})
unfolding fail_row
fail_job job worker message final s = elim (get_job job s.jobs) [
  | none ↦ err no_rows
  | some j ↦ fail_row j job worker message final s
]
