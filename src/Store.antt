-- ===== src/Store.antt =====
-- The database of the api component: the tables that the job service writes, and the statements
-- of db/gen on them. A transaction is a chain of statements whose error discards every change, as
-- the deferred tx.Rollback does.
use qarau.Common.Tables.{find}
use Prim.Native.String.{String}
use text.Mathlib.Text.{◌==◌ as str_eq}
use qarau.Common.{
  ℕ, ◌+◌, Bool, true, false, not, ◌&&◌, Option, none, some, List, [], ◌∷◌, ◌++◌, ◌==◌,
  if◌then◌else◌,
}
use qarau.Common.Int.{ℤ, pos, negsuc, ◌+ℤ◌, leb_ℤ}
use qarau.Common.Result.{
  Result, ok, err, no_rows, unique_violation, foreign_key_violation, out_of_range,
}
use qarau.Jobs.{Job, JobType, fetch, asr, has_id, has_key, is_type, new_job, mark_job_done}

pub record AudioBlob : Type 0 where
  pub video_id : ℕ
  pub content : List ℕ
  pub filename : List ℕ

-- A row of `videos`: GetVideo and GetVideoByID read it whole. `published_at` is a time.
pub record Video : Type 0 where
  pub id : ℕ
  pub online_video_id : String
  pub title : String
  pub channel_id : String
  pub channel_title : String
  pub published_at : ℕ
  pub duration_micros : ℤ
  pub views : ℤ
  pub likes : ℤ
  pub default_lang : Option String
  pub embeddable : Bool
  pub thumbnail_url : Option String
  pub thumbnail_width : Option ℤ
  pub thumbnail_height : Option ℤ

pub record Transcription : Type 0 where
  pub id : ℕ
  pub video_id : ℕ
  pub model : String

pub record WordRow : Type 0 where
  pub transcription_id : ℕ
  pub seq : ℤ
  pub start_ms : ℤ
  pub end_ms : ℤ
  pub word : String
  pub confidence : ℤ
  pub speaker : ℤ

pub record SentenceRow : Type 0 where
  pub transcription_id : ℕ
  pub seq : ℤ
  pub start_word_seq : ℤ
  pub end_word_seq : ℤ
  pub start_ms : ℤ
  pub end_ms : ℤ
  pub text : String

pub record Store : Type 0 where
  pub videos : List Video
  pub next_video : ℕ
  pub jobs : List Job
  pub next_job : ℕ
  pub blobs : List AudioBlob
  pub transcriptions : List Transcription
  pub next_transcription : ℕ
  pub words : List WordRow
  pub sentences : List SentenceRow
  pub quota : List (ℕ × ℤ)

abbrev pub Tx : Type 0 → Type 0
Tx A = Store → Result (A × Store)

infixl 5 ◌>>=◌ ◌>>◌
abbrev pub ◌>>=◌ : {A B : Type 0} → Tx A → (A → Tx B) → Tx B
◌>>=◌ m f s = elim (m s) [ err e ↦ err e | ok (a, t) ↦ f a t ]

abbrev pub ◌>>◌ : {B : Type 0} → Tx (Unit {0}) → Tx B → Tx B
m >> k = m >>= λ _. k

abbrev pub return : {A : Type 0} → A → Tx A
return a s = ok (a, s)

-- `any` row that meets a test.
unfoldable pub exists {ℓ} : {A : Type ℓ} → (A → Bool) → List A → Bool
exists p [] = false
exists p (x ∷ xs) = if p x then true else exists p xs

-- DELETE … WHERE: the rows that do not meet the test stay.
unfoldable pub delete_where {ℓ} : {A : Type ℓ} → (A → Bool) → List A → List A
delete_where p [] = []
delete_where p (x ∷ xs) = if p x then delete_where p xs else x ∷ delete_where p xs

-- CreateAudioBlob: one blob to a video, and the video is there.
unfoldable pub create_audio_blob : ℕ → List ℕ → List ℕ → Tx (Unit {0})
unfolding exists
create_audio_blob video content filename s =
    if exists (λ b. AudioBlob.video_id b == video) s.blobs
    then err unique_violation
    else if not (exists (λ v. Video.id v == video) s.videos)
    then err foreign_key_violation
    else ok (
      tt,
      record s {
        blobs = record { video_id = video; content = content; filename = filename } ∷ s.blobs;
      },
    )

-- MarkJobDone inside a transaction.
unfoldable pub complete_job : ℕ → JobType → String → ℕ → Tx (Unit {0})
complete_job id ty worker now s = elim (mark_job_done id ty worker now s.jobs) [
  | none ↦ err no_rows
  | some jobs ↦ ok (tt, record s { jobs = jobs })
]

-- INSERT INTO jobs, under the constraint uniq_active_job and the table's next id. The foreign key
-- from jobs.video_id to videos is not tested: each caller has loaded the row of the video, or that
-- of a job of it, and no statement deletes a video.
unfoldable pub insert_job : ℕ → JobType → String → ℕ → Tx ℕ
unfolding exists
insert_job video ty online now s =
    if exists (has_key video ty) s.jobs
    then err unique_violation
    else ok (
      s.next_job,
      record s {
        jobs = new_job s.next_job video ty online now ∷ s.jobs;
        next_job = s.next_job + 1;
      },
    )

abbrev pub is_fetch_job : ℕ → Job → Bool
is_fetch_job id j = has_id id j && is_type j.job_type fetch

-- CreateAsrJob: INSERT … SELECT from the row of the fetch job.
unfoldable pub create_asr_job : ℕ → ℕ → Tx ℕ
unfolding insert_job
create_asr_job fetch_job now s = elim (find (is_fetch_job fetch_job) s.jobs) [
  | none ↦ err no_rows
  | some j ↦ insert_job j.video_id asr j.online_video_id now s
]

-- CreateFetchJobIfAbsent: ON CONFLICT DO NOTHING returns no row.
unfoldable pub create_fetch_job_if_absent : ℕ → String → ℕ → Tx ℕ
unfolding insert_job
create_fetch_job_if_absent video online now s = elim (insert_job video fetch online now s) [
  | err e ↦ err no_rows
  | ok r ↦ ok r
]

unfoldable pub find_transcription : ℕ → String → List Transcription → Option ℕ
find_transcription video model [] = none
find_transcription video model (t ∷ ts) =
    if t.video_id == video && str_eq t.model model
    then some t.id
    else find_transcription video model ts

-- UpsertTranscription: the id of the row of a video and a model, made if there is none. (Its
-- column created_at is not modelled.)
unfoldable pub upsert_transcription : ℕ → String → Tx ℕ
unfolding find_transcription exists
upsert_transcription video model s = elim (find_transcription video model s.transcriptions) [
  | some id ↦ ok (id, s)
  | none ↦
      if not (exists (λ v. Video.id v == video) s.videos)
      then err foreign_key_violation
      else ok (
        s.next_transcription,
        record s {
          transcriptions =
              record { id = s.next_transcription; video_id = video; model = model }
              ∷ s.transcriptions;
          next_transcription = s.next_transcription + 1;
        },
      )
]

unfoldable pub delete_words : ℕ → Tx (Unit {0})
delete_words id s =
    ok (tt, record s { words = delete_where (λ w. WordRow.transcription_id w == id) s.words })

unfoldable pub delete_sentences : ℕ → Tx (Unit {0})
delete_sentences id s = ok (
  tt,
  record s { sentences = delete_where (λ t. SentenceRow.transcription_id t == id) s.sentences },
)

-- The CHECK of the column `confidence`.
abbrev pub is_percent : WordRow → Bool
is_percent w = leb_ℤ (pos 0) w.confidence && leb_ℤ w.confidence (pos 100)

-- InsertWords, a COPY of many rows: one bad row fails all. The rows of the transcription were
-- deleted before, so its primary key is free.
unfoldable pub insert_words : List WordRow → Tx (Unit {0})
unfolding exists
insert_words rows s =
    if exists (λ w. not (is_percent w)) rows
    then err out_of_range
    else ok (tt, record s { words = s.words ++ rows })

unfoldable pub get_asr_quota : ℕ → List (ℕ × ℤ) → Option ℤ
get_asr_quota day [] = none
get_asr_quota day ((d, used) ∷ rest) = if d == day then some used else get_asr_quota day rest

-- The range of the type INTEGER.
abbrev pub is_int32 : ℤ → Bool
is_int32 n = leb_ℤ (negsuc 2147483647) n && leb_ℤ n (pos 2147483647)

unfoldable pub set_quota : ℕ → ℤ → List (ℕ × ℤ) → List (ℕ × ℤ)
set_quota day v [] = (day, v) ∷ []
set_quota day v ((d, used) ∷ rest) =
    if d == day then (day, v) ∷ rest else (d, used) ∷ set_quota day v rest

abbrev pub or_zero : Option ℤ → ℤ
or_zero none = pos 0
or_zero (some used) = used

-- UpsertAsrQuota: the first use of a day makes its row, a later one adds to it.
unfoldable pub upsert_asr_quota : ℕ → ℤ → Tx (Unit {0})
unfolding set_quota
upsert_asr_quota day used s =
    let total = or_zero (get_asr_quota day s.quota) +ℤ used in
    if is_int32 total
    then ok (tt, record s { quota = set_quota day total s.quota })
    else err out_of_range

-- The CHECKs of the table `sentences`.
abbrev pub is_range : SentenceRow → Bool
is_range r = leb_ℤ r.start_word_seq r.end_word_seq && leb_ℤ r.start_ms r.end_ms

-- InsertSentences, a COPY of many rows. The rows of the transcription were deleted before.
unfoldable pub insert_sentences : List SentenceRow → Tx (Unit {0})
unfolding exists
insert_sentences rows s =
    if exists (λ r. not (is_range r)) rows
    then err out_of_range
    else ok (tt, record s { sentences = s.sentences ++ rows })
