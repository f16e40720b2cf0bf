-- ===== src/Breakdowns/Batches.antt =====
-- The statements of db/gen/breakdown_batches.sql.go on the table `breakdown_batches`.
use Prim.Native.String.{String}
use text.Mathlib.Text.{◌==◌ as str_eq}
use qarau.Common.{
  ℕ, ◌+◌, Bool, true, false, not, ◌&&◌, ◌||◌, Option, none, some, List, ◌∷◌, ◌==◌, if◌then◌else◌,
}
use qarau.Common.Int.{ℤ}
use qarau.Common.Result.{Result, ok, err, foreign_key_violation}
use qarau.Common.Tables.{find, update_where, update_returning, oldest}
use qarau.Store.{exists}
use qarau.Jobs.{before, is_held_by}
use qarau.Breakdowns.{
  Batch, BatchState, batch_pending, batch_running, batch_done, batch_failed, Message, Db, eq_ℤ,
  is_sentence, count_where,
}

abbrev pub is_pending_batch : BatchState → Bool
is_pending_batch batch_pending = true
is_pending_batch _ = false

abbrev pub is_running_batch : BatchState → Bool
is_running_batch batch_running = true
is_running_batch _ = false

abbrev pub is_failed_batch : BatchState → Bool
is_failed_batch batch_failed = true
is_failed_batch _ = false

-- The WHERE clause of ClaimBreakdownBatch. `locked` tells the rows that SKIP LOCKED leaves out.
unfoldable pub is_claimable_batch : ℕ → (ℕ → Bool) → Batch → Bool
is_claimable_batch now locked b =
    (is_pending_batch b.state || is_running_batch b.state && before b.locked_until now)
    && not (locked b.id)

abbrev pub has_batch_id : ℕ → Batch → Bool
has_batch_id id b = b.id == id

abbrev pub claimed_batch : String → ℕ → ℕ → Batch → Batch
claimed_batch name until now b = record b {
  state = batch_running;
  locked_by = some name;
  locked_until = some until;
  started_at = some now;
}

abbrev pub set_batches : Db → List Batch → Db
set_batches db batches = record db { batches = batches }

-- ClaimBreakdownBatch: the claimed row as it was, and the database after.
unfoldable pub claim_breakdown_batch : String → ℕ → ℕ → (ℕ → Bool) → Db → Option (Batch × Db)
claim_breakdown_batch name until now locked db =
    elim (oldest Batch.created_at (is_claimable_batch now locked) db.batches) [
      | none ↦ none
      | some b ↦ some (
        b,
        set_batches db (update_where (has_batch_id b.id) (claimed_batch name until now) db.batches),
      )
    ]

abbrev pub is_active_of : ℕ → Batch → Bool
is_active_of transcription b =
    b.transcription_id == transcription && (is_pending_batch b.state || is_running_batch b.state)

-- CountActiveBreakdownBatches
unfoldable pub count_active_batches : ℕ → Db → ℕ
unfolding count_where
count_active_batches transcription db = count_where (is_active_of transcription) db.batches

-- The key of the constraint uniq_breakdown_batch.
abbrev pub has_batch_key : ℕ → ℤ → String → Batch → Bool
has_batch_key transcription start lang b =
    b.transcription_id == transcription && eq_ℤ b.batch_start_seq start && str_eq b.target_lang lang

-- GetBreakdownBatch
unfoldable pub get_breakdown_batch : ℕ → ℤ → String → Db → Option Batch
get_breakdown_batch transcription start lang db =
    find (has_batch_key transcription start lang) db.batches

abbrev pub new_batch : ℕ → ℕ → ℤ → String → ℕ → Batch
new_batch id transcription start lang now = record {
  id = id;
  transcription_id = transcription;
  batch_start_seq = start;
  target_lang = lang;
  state = batch_pending;
  locked_by = none;
  locked_until = none;
  last_error = none;
  created_at = now;
  started_at = none;
  finished_at = none;
}

-- The DO UPDATE clause: a failed batch is pending again.
abbrev pub retried : Batch → Batch
retried b =
    if is_failed_batch b.state then record b { state = batch_pending; last_error = none } else b

-- EnqueueBreakdownBatch
unfoldable pub enqueue_breakdown_batch : ℕ → ℤ → String → ℕ → Db → Result Db
unfolding exists
enqueue_breakdown_batch transcription start lang now db =
    if exists (has_batch_key transcription start lang) db.batches
    then ok
        (set_batches db (update_where (has_batch_key transcription start lang) retried db.batches))
    else if not (exists (is_sentence transcription start) db.sentences)
    then err foreign_key_violation
    else ok (record db {
      batches = new_batch db.next_batch transcription start lang now ∷ db.batches;
      next_batch = db.next_batch + 1;
    })

abbrev pub is_batch_lease : ℕ → String → Batch → Bool
is_batch_lease id name b = b.id == id && is_running_batch b.state && is_held_by b.locked_by name

abbrev pub done_batch : ℕ → Batch → Batch
done_batch now b = record b {
  state = batch_done;
  locked_by = none;
  locked_until = none;
  last_error = none;
  finished_at = some now;
}

abbrev pub failed_batch : Message → ℕ → Batch → Batch
failed_batch message now b = record b {
  state = batch_failed;
  locked_by = none;
  locked_until = none;
  last_error = some message;
  finished_at = some now;
}

-- MarkBreakdownBatchDone
unfoldable pub mark_breakdown_batch_done : ℕ → String → ℕ → Db → Option (List Batch)
mark_breakdown_batch_done id name now db =
    update_returning (is_batch_lease id name) (done_batch now) db.batches

-- MarkBreakdownBatchFailed
unfoldable pub mark_breakdown_batch_failed : Message → ℕ → String → ℕ → Db → Option (List Batch)
mark_breakdown_batch_failed message id name now db =
    update_returning (is_batch_lease id name) (failed_batch message now) db.batches
