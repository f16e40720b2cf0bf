-- ===== src/Breakdowns/Kept.antt =====
-- The processing of a batch leaves the table of batches as it is.
use qarau.Common.Int.{ℤ, ℤ}
use qarau.Breakdowns.Model.{do_sentence_breakdown_stream, StreamedSentence}
use Prim.Native.String.{String}
use qarau.Common.{
  if◌then◌else◌, ℕ, ◌≡◌, refl, ◌∙◌, Bool, true, false, Option, none, some, List, [], ◌∷◌, arith,
  length,
}
use qarau.Store.{SentenceRow}
use qarau.Breakdowns.{
  no_video_details, upsert_llm_quota, insert_sentence_breakdown, Batch, Message, TokenUsage, Db,
}
use qarau.Breakdowns.Runner.{
  conclude, progress, count_usage, insert_all, insert_single_breakdown, process, Turn, Runner,
  Progress,
}

abbrev pub queue : Db → ℕ × List Batch
queue db = (db.next_batch, db.batches)

insert_single_breakdown-queue :
    (turn : Turn) (t : ℕ) (lang : String) (batch : List SentenceRow) (ss : StreamedSentence)
    (db : Db)
    → queue (insert_single_breakdown turn t lang batch ss db).1 ≡ queue db
unfolding insert_single_breakdown insert_sentence_breakdown
insert_single_breakdown-queue turn t lang batch ss db = ground arith

progress-queue :
    (i : ℤ) (p : Progress) (x : Option Message × Db)
    → queue x.1 ≡ queue p.db
    → queue (progress i p x).db ≡ queue p.db
progress-queue i p (none, db) e = e
progress-queue i p (some m, db) e = e

count_usage-queue :
    (turn : Turn) (u : TokenUsage) (db : Db) → queue (count_usage turn u db).1 ≡ queue db
unfolding count_usage upsert_llm_quota
count_usage-queue turn u db = ground arith

insert_all-queue :
    (turn : Turn) (t : ℕ) (lang : String) (batch : List SentenceRow) (rest : List StreamedSentence)
    (p : Progress)
    → queue (insert_all turn t lang batch rest p).db ≡ queue p.db
unfolding insert_all
insert_all-queue turn t lang batch [] p = refl
insert_all-queue turn t lang batch (ss ∷ rest) p =
    insert_all-queue turn t lang batch rest _
    ∙ progress-queue ss.sent_index p (insert_single_breakdown turn t lang batch ss p.db)
        (insert_single_breakdown-queue turn t lang batch ss p.db)

if-queue :
    (b : Bool) (x y : Option Message × Db) (db : Db)
    → queue x.1 ≡ queue db
    → queue y.1 ≡ queue db
    → queue (if b then x else y).1 ≡ queue db
if-queue true x y db h k = h
if-queue false x y db h k = k

pub process-queue :
    (r : Runner) (turn : Turn) (t : ℕ) (lang : String) (batch : List SentenceRow) (db : Db)
    → queue (process r turn t lang batch db).1 ≡ queue db
unfolding process
process-queue r turn t lang batch db =
    let g = do_sentence_breakdown_stream lang r.model r.prompt (length batch) turn.call in
    let p : Progress = record { saved = none; indexes = []; db = db } in
    if-queue turn.video_fails (some no_video_details, db)
      (conclude turn g (length batch) (insert_all turn t lang batch g.streamed p)) db refl
      (count_usage-queue turn g.usage (insert_all turn t lang batch g.streamed p).db
        ∙ insert_all-queue turn t lang batch g.streamed p)
