-- ===== src/Breakdowns/Requests.antt =====
-- GetBreakdowns and EnqueueBreakdowns of internal/api/video_service.go, by which a viewer asks for
-- the breakdowns of the sentences around a position.
use Prim.Native.String.{String}
use qarau.Common.{
  ℕ, Bool, true, false, not, Option, none, some, List, [], ◌∷◌, if◌then◌else◌, ltb, leb, length,
}
use qarau.Common.Int.{ℤ, pos, ◌+ℤ◌, ◌-ℤ◌, ltb_ℤ, pos_part, int32_of}
use qarau.Common.Result.{◌>>=◌, panic, Result, ok, err}
use qarau.Store.{SentenceRow}
use qarau.Service.{quota_day, Clock}
use qarau.Breakdowns.{
  Batch, BatchState, batch_pending, batch_running, batch_done, batch_failed, BreakdownRow,
  WordBreakdown, TokenUsage, Db, eq_ℤ, batch_start, batch_content, count_sentence_breakdowns,
  get_sentence_breakdowns, get_llm_quota,
}
use qarau.Breakdowns.Batches.{
  count_active_batches, get_breakdown_batch, enqueue_breakdown_batch, is_failed_batch,
}
use qarau.Breakdowns.Runner.{nth}

pub record SentBreakdown : Type 0 where
  pub seq : ℤ
  pub start_ms : ℤ
  pub end_ms : ℤ
  pub text : String
  pub translations : List String
  pub words : List WordBreakdown

abbrev pub joined_row : SentenceRow → BreakdownRow → SentBreakdown
joined_row s b = record {
  seq = b.sentence_seq;
  start_ms = s.start_ms;
  end_ms = s.end_ms;
  text = s.text;
  translations = b.translations;
  words = b.words;
}

-- The inner loop of joinSentenceBreakdowns: skip the sentences before the breakdown's.
unfoldable pub skip_before : ℤ → List SentenceRow → List SentenceRow
skip_before seq [] = []
skip_before seq (s ∷ ss) = let rest = skip_before seq ss in if ltb_ℤ s.seq seq then rest else s ∷ ss

abbrev pub join_head : List SentenceRow → BreakdownRow → List SentBreakdown → List SentBreakdown
join_head [] b rest = rest
join_head (s ∷ ss) b rest = if eq_ℤ s.seq b.sentence_seq then joined_row s b ∷ rest else rest

-- joinSentenceBreakdowns: its index stays at the sentence that it has matched.
unfoldable pub join_sentence_breakdowns : List SentenceRow → List BreakdownRow → List SentBreakdown
unfolding skip_before
join_sentence_breakdowns ss [] = []
join_sentence_breakdowns ss (b ∷ bs) =
    let rest = join_sentence_breakdowns (skip_before b.sentence_seq ss) bs in
    join_head (skip_before b.sentence_seq ss) b rest

pub record GetBreakdownsResponse : Type 0 where
  pub is_ok : Bool
  pub breakdowns : List SentBreakdown
  pub message : String
  pub start_ms : ℤ
  pub end_ms : ℤ
  pub batch_start_seq : ℤ
  pub batch_is_running : Bool
  pub preview : String

unfoldable pub last_end_ms : SentenceRow → List SentenceRow → ℤ
last_end_ms s [] = s.end_ms
last_end_ms s (t ∷ ts) = last_end_ms t ts

-- The last number of a batch, inclusive, in int32.
unfoldable pub batch_end : ℤ → ℕ → ℤ
unfolding ◌+ℤ◌ ◌-ℤ◌
batch_end start n = int32_of ((start +ℤ pos n) -ℤ pos 1)

abbrev pub not_found : GetBreakdownsResponse
not_found = record {
  is_ok = false;
  breakdowns = [];
  message = "sentences not found";
  start_ms = pos 0;
  end_ms = pos 0;
  batch_start_seq = pos 0;
  batch_is_running = false;
  preview = "";
}

-- The message about a batch, and whether it is running: `locked_until` is in the future.
abbrev pub batch_message : BatchState → String
batch_message batch_pending = "breakdowns pending"
batch_message batch_running = "breakdowns running"
batch_message batch_done = "breakdowns done"
batch_message batch_failed = "breakdowns missing"

abbrev pub after_now : Option ℕ → ℕ → Bool
after_now none now = false
after_now (some t) now = ltb now t

abbrev pub runs_now : BatchState → Option ℕ → ℕ → Bool
runs_now batch_running until now = after_now until now
runs_now _ until now = false

abbrev pub text_of : Option SentenceRow → String
text_of none = ""
text_of (some s) = s.text

-- The text to show meanwhile. A negative offset panics; one past the end gives no text.
unfoldable pub preview_text : ℤ → ℤ → List SentenceRow → Result String
unfolding nth ◌-ℤ◌
preview_text seq start batch =
    let offset = seq -ℤ start in
    if ltb_ℤ offset (pos 0) then err panic else ok (text_of (nth (pos_part offset) batch))

abbrev pub has_any : List SentBreakdown → Bool
has_any [] = false
has_any (b ∷ bs) = true

abbrev pub missing_response :
    ℕ
    → ℤ
    → SentenceRow
    → List SentenceRow
    → List SentBreakdown
    → Option Batch
    → String
    → GetBreakdownsResponse
missing_response now seq s ss found none text = record {
  is_ok = has_any found;
  breakdowns = found;
  message = "breakdowns missing";
  start_ms = s.start_ms;
  end_ms = last_end_ms s ss;
  batch_start_seq = batch_start seq;
  batch_is_running = false;
  preview = text;
}
missing_response now seq s ss found (some b) text = record {
  is_ok = has_any found;
  breakdowns = found;
  message = batch_message b.state;
  start_ms = s.start_ms;
  end_ms = last_end_ms s ss;
  batch_start_seq = batch_start seq;
  batch_is_running = runs_now b.state b.locked_until now;
  preview = text;
}

abbrev pub whole_response :
    ℤ → SentenceRow → List SentenceRow → List SentBreakdown → GetBreakdownsResponse
whole_response seq s ss found = record {
  is_ok = true;
  breakdowns = found;
  message = "";
  start_ms = s.start_ms;
  end_ms = last_end_ms s ss;
  batch_start_seq = batch_start seq;
  batch_is_running = false;
  preview = "";
}

-- The breakdowns of the sentences of a batch.
unfoldable pub found_breakdowns : ℕ → String → ℤ → List SentenceRow → Db → List SentBreakdown
unfolding join_sentence_breakdowns get_sentence_breakdowns batch_end
found_breakdowns transcription lang start batch db =
    join_sentence_breakdowns batch
      (get_sentence_breakdowns transcription start (batch_end start (length batch)) lang db)

abbrev pub show_batch : ℕ → ℕ → String → ℤ → List SentenceRow → Db → Result GetBreakdownsResponse
show_batch now transcription lang seq [] db = ok not_found
show_batch now transcription lang seq (s ∷ ss) db =
    let found = found_breakdowns transcription lang (batch_start seq) (s ∷ ss) db in
    if leb (length (s ∷ ss)) (length found)
    then ok (whole_response seq s ss found)
    else (preview_text seq (batch_start seq) (s ∷ ss) >>= λ text. ok (
        missing_response now seq s ss found
          (get_breakdown_batch transcription (batch_start seq) lang db) text))

-- GetBreakdowns
unfoldable pub get_breakdowns : ℕ → ℕ → String → ℤ → Db → Result GetBreakdownsResponse
unfolding batch_content found_breakdowns get_breakdown_batch
get_breakdowns now transcription lang seq db =
    show_batch now transcription lang seq (batch_content transcription seq db) db

pub record EnqueueBreakdownsResponse : Type 0 where
  pub proceed_to_polling : Bool
  pub message : String

abbrev pub proceed : EnqueueBreakdownsResponse
proceed = record { proceed_to_polling = true; message = "" }

abbrev pub refuse : String → EnqueueBreakdownsResponse
refuse message = record { proceed_to_polling = false; message = message }

abbrev pub non_failed : Option Batch → Bool
non_failed none = false
non_failed (some b) = not (is_failed_batch b.state)

-- The answer after EnqueueBreakdownBatch.
abbrev pub enqueued : Db → Result Db → Result EnqueueBreakdownsResponse × Db
enqueued db (err e) = (err e, db)
enqueued db (ok t) = (ok proceed, t)

-- The two last checks: the day's quota (checkLlmQuotaAvailable) and three active batches.
abbrev pub admit_batch :
    (TokenUsage → Bool) → Clock → ℕ → String → ℤ → Db → Result EnqueueBreakdownsResponse × Db
admit_batch available c transcription lang start db =
    if not (available (get_llm_quota (quota_day c.app) db))
    then (ok (refuse "no quota"), db)
    else if leb 3 (count_active_batches transcription db)
    then (ok (refuse "queue full"), db)
    else enqueued db (enqueue_breakdown_batch transcription start lang c.db db)

abbrev pub enqueue_batch :
    (TokenUsage → Bool)
    → Clock
    → ℕ
    → String
    → ℤ
    → List SentenceRow
    → Db
    → Result EnqueueBreakdownsResponse × Db
enqueue_batch available c transcription lang start [] db = (ok (refuse "no sentences found"), db)
enqueue_batch available c transcription lang start (s ∷ ss) db =
    if ltb 0
      (count_sentence_breakdowns transcription start (batch_end start (length (s ∷ ss))) lang db)
    then (ok proceed, db)
    else if non_failed (get_breakdown_batch transcription start lang db)
    then (ok proceed, db)
    else admit_batch available c transcription lang start db

-- EnqueueBreakdowns
unfoldable pub enqueue_breakdowns :
    (TokenUsage → Bool) → Clock → ℕ → String → ℤ → Db → Result EnqueueBreakdownsResponse × Db
unfolding batch_content batch_start
enqueue_breakdowns available c transcription lang seq db =
    enqueue_batch available c transcription lang (batch_start seq)
      (batch_content transcription seq db) db
