-- ===== src/Breakdowns.antt =====
-- Breakdowns of sentences: the tables that internal/llm/bb_runner.go and
-- internal/api/video_service.go share (db/gen/sentences.sql.go, db/gen/llm_quota.sql.go), and the
-- batches of sentences of internal/llm/batch.go.
pub mod Batches
pub mod Model
pub mod Runner
pub mod Blocking
pub mod Requests
pub mod Settled
pub mod Kept
pub mod Drained
pub mod Emptied
pub mod Joined
pub mod Enqueued
pub mod Promised
pub mod Grown
pub mod Remains
pub mod Stuck
pub mod Valid
pub mod Bounded
pub mod History
use qarau.Common.Int.{between}
use qarau.Common.Sorted.{select_by_seq}
use Prim.Native.String.{String}
use text.Mathlib.Text.{◌==◌ as str_eq}
use qarau.Common.{
  ℕ, suc, ◌+◌, Bool, true, false, not, ◌&&◌, Option, none, some, List, [], ◌∷◌, ◌++◌, ◌==◌,
  if◌then◌else◌,
}
use qarau.Common.Int.{int32, ℤ, pos, ◌+ℤ◌, ◌*ℤ◌, quot, leb_ℤ, int32_of}
use qarau.Common.Result.{Result, ok, err, foreign_key_violation}
use qarau.Common.Tables.{find}
use qarau.Store.{SentenceRow, exists}

pub data BatchState : Type 0 where
  batch_pending batch_running batch_done batch_failed : BatchState

-- Why a batch failed; the code keeps each as a text.
pub data Message : Type 0 where
  empty_batch no_video_details generation_failed quota_not_stored : Message
  index_out_of_range empty_sentence not_inserted : Message
  too_few : ℕ → ℕ → Message

pub record Batch : Type 0 where
  pub id : ℕ
  pub transcription_id : ℕ
  pub batch_start_seq : ℤ
  pub target_lang : String
  pub state : BatchState
  pub locked_by : Option String
  pub locked_until : Option ℕ
  pub last_error : Option Message
  pub created_at : ℕ
  pub started_at : Option ℕ
  pub finished_at : Option ℕ

pub record WordBreakdown : Type 0 where
  pub word : String
  pub part_of_speech : String
  pub base : String
  pub base_translation : String
  pub word_translation : String
  pub comment : String

-- A row of `sentence_breakdowns`; its JSON columns are the values that they encode.
pub record BreakdownRow : Type 0 where
  pub transcription_id : ℕ
  pub sentence_seq : ℤ
  pub target_lang : String
  pub model : String
  pub prompt_version : ℤ
  pub translations : List String
  pub words : List WordBreakdown

pub record TokenUsage : Type 0 where
  pub input : ℤ
  pub output : ℤ

pub record Db : Type 0 where
  pub sentences : List SentenceRow
  pub batches : List Batch
  pub next_batch : ℕ
  pub breakdowns : List BreakdownRow
  pub llm_quota : List (ℕ × TokenUsage)

abbrev pub eq_ℤ : ℤ → ℤ → Bool
eq_ℤ a b = leb_ℤ a b && leb_ℤ b a

abbrev pub in_range : ℕ → ℤ → ℤ → SentenceRow → Bool
in_range transcription low high r = r.transcription_id == transcription && between low high r.seq

-- GetSentencesRange
unfoldable pub get_sentences_range : ℕ → ℤ → ℤ → Db → List SentenceRow
unfolding select_by_seq
get_sentences_range transcription low high db =
    select_by_seq SentenceRow.seq (in_range transcription low high) db.sentences

abbrev pub sentence_batch_size : ℕ
sentence_batch_size = 25

-- The start of the batch of a sentence: the numbers are int32.
unfoldable pub batch_start : ℤ → ℤ
unfolding quot ◌*ℤ◌
batch_start seq = quot seq sentence_batch_size *ℤ pos sentence_batch_size

unfoldable pub range_end : ℤ → ℤ
unfolding ◌+ℤ◌ int32
range_end start = int32_of (start +ℤ pos 24)

-- GetBatchBoundariesAndContent: the sentences of the batch. Its second result is `batch_start`.
unfoldable pub batch_content : ℕ → ℤ → Db → List SentenceRow
unfolding batch_start range_end get_sentences_range
batch_content transcription seq db =
    get_sentences_range transcription (batch_start seq) (range_end (batch_start seq)) db

abbrev pub in_breakdowns : ℕ → ℤ → ℤ → String → BreakdownRow → Bool
in_breakdowns transcription low high lang r =
    r.transcription_id == transcription
    && between low high r.sentence_seq
    && str_eq r.target_lang lang

unfoldable pub count_where : {A : Type 0} → (A → Bool) → List A → ℕ
count_where p [] = 0
count_where p (x ∷ xs) = let rest = count_where p xs in if p x then suc rest else rest

-- CountSentenceBreakdowns
unfoldable pub count_sentence_breakdowns : ℕ → ℤ → ℤ → String → Db → ℕ
unfolding count_where
count_sentence_breakdowns transcription low high lang db =
    count_where (in_breakdowns transcription low high lang) db.breakdowns

-- GetSentenceBreakdowns
unfoldable pub get_sentence_breakdowns : ℕ → ℤ → ℤ → String → Db → List BreakdownRow
unfolding select_by_seq
get_sentence_breakdowns transcription low high lang db =
    select_by_seq BreakdownRow.sentence_seq (in_breakdowns transcription low high lang)
      db.breakdowns

abbrev pub is_breakdown_of : BreakdownRow → BreakdownRow → Bool
is_breakdown_of r q =
    q.transcription_id == r.transcription_id
    && eq_ℤ q.sentence_seq r.sentence_seq
    && str_eq q.target_lang r.target_lang

abbrev pub is_sentence : ℕ → ℤ → SentenceRow → Bool
is_sentence transcription seq r = r.transcription_id == transcription && eq_ℤ r.seq seq

-- InsertSentenceBreakdown: ON CONFLICT DO NOTHING, and the sentence is there.
unfoldable pub insert_sentence_breakdown : BreakdownRow → Db → Result Db
unfolding exists
insert_sentence_breakdown r db =
    if exists (is_breakdown_of r) db.breakdowns
    then ok db
    else if not (exists (is_sentence r.transcription_id r.sentence_seq) db.sentences)
    then err foreign_key_violation
    else ok (record db { breakdowns = r ∷ db.breakdowns })

abbrev pub no_usage : TokenUsage
no_usage = record { input = pos 0; output = pos 0 }

abbrev pub or_no_usage : Option (ℕ × TokenUsage) → TokenUsage
or_no_usage none = no_usage
or_no_usage (some (day, used)) = used

-- GetLlmQuota, with zeros where the day has no row.
unfoldable pub get_llm_quota : ℕ → Db → TokenUsage
unfolding find
get_llm_quota day db = or_no_usage (find (λ r. r.0 == day) db.llm_quota)

abbrev pub add_usage : TokenUsage → TokenUsage → TokenUsage
unfolding ◌+ℤ◌
add_usage a b = record { input = a.input +ℤ b.input; output = a.output +ℤ b.output }

unfoldable pub set_usage : ℕ → TokenUsage → List (ℕ × TokenUsage) → List (ℕ × TokenUsage)
unfolding add_usage
set_usage day used [] = (day, used) ∷ []
set_usage day used ((d, u) ∷ rest) =
    if d == day then (d, add_usage u used) ∷ rest else (d, u) ∷ set_usage day used rest

-- UpsertLlmQuota
unfoldable pub upsert_llm_quota : ℕ → TokenUsage → Db → Db
unfolding set_usage
upsert_llm_quota day used db = record db { llm_quota = set_usage day used db.llm_quota }
