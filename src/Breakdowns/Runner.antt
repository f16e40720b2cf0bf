-- ===== src/Breakdowns/Runner.antt =====
-- BBRunner of internal/llm/bb_runner.go, which has the pending batches broken down one by one.
use Prim.Native.String.{String}
use text.Mathlib.Text.{◌==◌ as str_eq}
use qarau.Common.{
  ℕ, zero, suc, ◌+◌, ◌*◌, Bool, true, false, not, ◌||◌, Option, none, some, List, [], ◌∷◌,
  if◌then◌else◌, leb, length,
}
use qarau.Common.Int.{ℤ, pos, pos_part, ltb_ℤ, int32}
use qarau.Common.Result.{Result, ok, err}
use qarau.Store.{SentenceRow, exists}
use qarau.Service.{second, quota_day}
use qarau.Breakdowns.{
  Batch, Message, empty_batch, no_video_details, generation_failed, quota_not_stored,
  index_out_of_range, empty_sentence, not_inserted, too_few, BreakdownRow, TokenUsage, Db, eq_ℤ,
  batch_content, insert_sentence_breakdown, get_llm_quota, upsert_llm_quota,
}
use qarau.Breakdowns.Batches.{
  claim_breakdown_batch, mark_breakdown_batch_done, mark_breakdown_batch_failed, set_batches,
}
use qarau.Breakdowns.Model.{StreamedSentence, Call, Generated, do_sentence_breakdown_stream}

-- A round of the loop: the clocks of the process and of the database, the rows that other
-- transactions lock, which statements fail, and the service's answer.
pub record Turn : Type 0 where
  pub app : ℕ
  pub db : ℕ
  pub locked : ℕ → Bool
  pub quota_fails : Bool
  pub claim_fails : Bool
  pub load_fails : Bool
  pub video_fails : Bool
  pub insert_fails : ℤ → Bool
  pub usage_fails : Bool
  pub mark_fails : Bool
  pub call : Call

-- The model and the prompt's version are those that the process was started with.
pub record Runner : Type 0 where
  pub name : String
  pub model : String
  pub prompt : ℕ

-- 5 minutes, in microseconds.
abbrev pub lock_period : ℕ
lock_period = 300 * second

unfoldable pub nth : ℕ → List SentenceRow → Option SentenceRow
nth n [] = none
nth zero (r ∷ rs) = some r
nth (suc n) (r ∷ rs) = nth n rs

abbrev pub to_breakdown_row : ℕ → String → ℤ → StreamedSentence → BreakdownRow
to_breakdown_row transcription lang seq ss = record {
  transcription_id = transcription;
  sentence_seq = seq;
  target_lang = lang;
  model = ss.model;
  prompt_version = int32 ss.prompt_version;
  translations = ss.content.translations;
  words = ss.content.words;
}

abbrev pub inserted : Db → Result Db → Option Message × Db
inserted db (err e) = (some not_inserted, db)
inserted db (ok t) = (none, t)

abbrev pub insert_at :
    Turn → ℕ → String → StreamedSentence → Option SentenceRow → Db → Option Message × Db
insert_at turn transcription lang ss none db = (some index_out_of_range, db)
insert_at turn transcription lang ss (some r) db =
    if str_eq ss.content.sentence ""
    then (some empty_sentence, db)
    else if turn.insert_fails ss.sent_index
    then (some not_inserted, db)
    else inserted db (insert_sentence_breakdown (to_breakdown_row transcription lang r.seq ss) db)

-- insertSingleBreakdown: an error, or none, and the database after.
unfoldable pub insert_single_breakdown :
    Turn → ℕ → String → List SentenceRow → StreamedSentence → Db → Option Message × Db
unfolding nth insert_sentence_breakdown
insert_single_breakdown turn transcription lang batch ss db =
    if ltb_ℤ ss.sent_index (pos 0)
    then (some index_out_of_range, db)
    else insert_at turn transcription lang ss (nth (pos_part ss.sent_index) batch) db

-- What the callback of process() keeps: the first error, the set of the indexes inserted, and
-- the database.
pub record Progress : Type 0 where
  pub saved : Option Message
  pub indexes : List ℤ
  pub db : Db

unfoldable pub add_index : ℤ → List ℤ → List ℤ
unfolding exists
add_index i is = if exists (eq_ℤ i) is then is else i ∷ is

abbrev pub first_error : Option Message → Message → Option Message
first_error none e = some e
first_error (some d) e = some d

abbrev pub progress : ℤ → Progress → Option Message × Db → Progress
progress i p (none, db) = record p { indexes = add_index i p.indexes; db = db }
progress i p (some e, db) = record p { saved = first_error p.saved e; db = db }

unfoldable pub insert_all :
    Turn → ℕ → String → List SentenceRow → List StreamedSentence → Progress → Progress
unfolding insert_single_breakdown add_index
insert_all turn transcription lang batch [] p = p
insert_all turn transcription lang batch (ss ∷ rest) p =
    insert_all turn transcription lang batch rest
      (progress ss.sent_index p (insert_single_breakdown turn transcription lang batch ss p.db))

abbrev pub has_usage : TokenUsage → Bool
has_usage u = ltb_ℤ (pos 0) u.input || ltb_ℤ (pos 0) u.output

unfoldable pub count_usage : Turn → TokenUsage → Db → Bool × Db
unfolding quota_day upsert_llm_quota
count_usage turn used db =
    if has_usage used
    then (if turn.usage_fails
        then (true, db)
        else (false, upsert_llm_quota (quota_day turn.app) used db))
    else (false, db)

abbrev pub or_too_few : Option Message → ℕ → ℕ → Message
or_too_few none n m = too_few n m
or_too_few (some e) n m = e

-- The verdict at the end of process(): half of the sentences are enough.
abbrev pub verdict : Bool → Bool → Option Message → ℕ → ℕ → Option Message
verdict failed uncounted saved n m =
    if failed
    then some generation_failed
    else if uncounted
    then some quota_not_stored
    else if leb m (n * 2)
    then none
    else some (or_too_few saved n m)

abbrev pub conclude : Turn → Generated → ℕ → Progress → Option Message × Db
conclude turn g m p =
    let (uncounted, db) = count_usage turn g.usage p.db in
    (verdict g.failed uncounted p.saved (length p.indexes) m, db)

-- process
unfoldable pub process : Runner → Turn → ℕ → String → List SentenceRow → Db → Option Message × Db
unfolding do_sentence_breakdown_stream insert_all
process r turn transcription lang batch db =
    if turn.video_fails
    then (some no_video_details, db)
    else let g = do_sentence_breakdown_stream lang r.model r.prompt (length batch) turn.call in
      conclude turn g (length batch) (
        insert_all turn transcription lang batch g.streamed
          (record { saved = none; indexes = []; db = db }))

abbrev pub marked : Db → Option (List Batch) → Db
marked db none = db
marked db (some batches) = set_batches db batches

-- markFailed and markDone: an error is only logged.
unfoldable pub mark_failed : Runner → Turn → Batch → Message → Db → Db
unfolding mark_breakdown_batch_failed
mark_failed r turn b e db =
    if turn.mark_fails then db else marked db (mark_breakdown_batch_failed e b.id r.name turn.db db)

unfoldable pub mark_done : Runner → Turn → Batch → Db → Db
unfolding mark_breakdown_batch_done
mark_done r turn b db =
    if turn.mark_fails then db else marked db (mark_breakdown_batch_done b.id r.name turn.db db)

abbrev pub settle : Runner → Turn → Batch → Option Message × Db → Db
settle r turn b (none, db) = mark_done r turn b db
settle r turn b (some e, db) = mark_failed r turn b e db

-- The claimed batch, from the loading of its sentences on.
unfoldable pub work : Runner → Turn → Batch → List SentenceRow → Db → Db
unfolding process
work r turn b [] db = mark_failed r turn b empty_batch db
work r turn b (s ∷ ss) db =
    settle r turn b (process r turn b.transcription_id b.target_lang (s ∷ ss) db)

unfoldable pub after_claim : Runner → Turn → Option (Batch × Db) → Db → (Bool × Bool) × Db
unfolding work batch_content
after_claim r turn none db = ((false, false), db)
after_claim r turn (some (b, t)) db =
    if turn.load_fails
    then ((true, false), t)
    else ((true, false), work r turn b (batch_content b.transcription_id b.batch_start_seq t) t)

-- tryBatch: whether a batch was found, whether to back off, and the database. `available` is
-- LlmQuotaController.Available, whose prices are floating point numbers.
unfoldable pub try_batch : (TokenUsage → Bool) → Runner → Turn → Db → (Bool × Bool) × Db
unfolding quota_day get_llm_quota claim_breakdown_batch after_claim
try_batch available r turn db =
    if turn.quota_fails
    then ((false, false), db)
    else if not (available (get_llm_quota (quota_day turn.app) db))
    then ((false, true), db)
    else if turn.claim_fails
    then ((false, false), db)
    else after_claim r turn
        (claim_breakdown_batch r.name (turn.app + lock_period) turn.db turn.locked db) db

-- Loop, until the process is cancelled: the seconds that it sleeps after each round, and the
-- database.
unfoldable pub loop : (TokenUsage → Bool) → Runner → List Turn → Db → List ℕ × Db
unfolding try_batch
loop available r [] db = ([], db)
loop available r (turn ∷ turns) db =
    let ((found, back_off), t) = try_batch available r turn db in
    let (sleeps, u) = loop available r turns t in ((if back_off then 600 else 10) ∷ sleeps, u)
