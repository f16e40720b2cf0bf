-- ===== src/Breakdowns/Grown.antt =====
-- No statement on a batch changes the sentences or takes a breakdown away.
use Prim.Native.String.{String}
use text.Mathlib.Text.{◌==◌ as str_eq}
use native.Mathlib.Nat.{le_refl, le_trans}
use qarau.Common.{
  if◌then◌else◌, ℕ, ◌≤◌, ◌≡◌, refl, sym, ◌∙◌, subst, Bool, true, false, Option, none, some, List,
  [], ◌∷◌, inl, inr, Bool-cases, arith, length,
}
use qarau.Common.Int.{ℤ, pos, ltb_ℤ, pos_part}
use qarau.Store.{SentenceRow, exists}
use qarau.Service.{quota_day}
use qarau.Breakdowns.{
  not_inserted, empty_sentence, is_breakdown_of, index_out_of_range, Message, Db, BreakdownRow,
  TokenUsage, count_where, in_breakdowns, insert_sentence_breakdown, upsert_llm_quota,
  no_video_details, is_sentence,
}
use qarau.Breakdowns.Model.{do_sentence_breakdown_stream, StreamedSentence}
use qarau.Breakdowns.Runner.{
  conclude, progress, count_usage, insert_all, insert_single_breakdown, process, Turn, Runner,
  Progress, inserted, insert_at, to_breakdown_row, nth, has_usage,
}

-- The sentences are the same, and no fewer breakdowns are stored of any range.
pub record Grows (db u : Db) : Type 0 where
  pub same : u.sentences ≡ db.sentences
  pub more :
      (t : ℕ) (low high : ℤ) (lang : String)
      → count_where (in_breakdowns t low high lang) db.breakdowns
        ≤ count_where (in_breakdowns t low high lang) u.breakdowns

pub Grows-refl : (db : Db) → Grows db db
Grows-refl db = record { same = refl; more = λ t low high lang. le_refl _ }

pub Grows-tables :
    (db u : Db) → u.sentences ≡ db.sentences → u.breakdowns ≡ db.breakdowns → Grows db u
Grows-tables db u e f = record { same = e; more = λ t low high lang. rw f (le_refl _) }

pub Grows-trans : (db u v : Db) → Grows db u → Grows u v → Grows db v
Grows-trans db u v h k = record {
  same = k.same ∙ h.same;
  more = λ t low high lang. le_trans (h.more t low high lang) (k.more t low high lang);
}

if-Grows :
    {A : Type 0} (c : Bool) (db : Db) (x y : A × Db)
    → Grows db x.1
    → Grows db y.1
    → Grows db (if c then x else y).1
if-Grows true db x y h k = h
if-Grows false db x y h k = k

count_where-more :
    {A : Type 0} (p : A → Bool) (x : A) (xs : List A) → count_where p xs ≤ count_where p (x ∷ xs)
unfolding count_where
count_where-more p x xs = ground arith

insert_sentence_breakdown-Grows :
    (r : BreakdownRow) (db : Db) → Grows db (inserted db (insert_sentence_breakdown r db)).1
unfolding insert_sentence_breakdown
insert_sentence_breakdown-Grows r db =
    elim (Bool-cases (exists (is_breakdown_of r) db.breakdowns)) [
      | inl e ↦ rw e (Grows-refl db)
      | inr e ↦
          elim (Bool-cases (exists (is_sentence r.transcription_id r.sentence_seq) db.sentences)) [
            | inr f ↦ rw (e, f) (Grows-refl db)
            | inl f ↦
                rw (e, f)
                  (record {
                    same = refl;
                    more = λ t low high lang. count_where-more _ r db.breakdowns;
                  })
          ]
    ]

insert_at-Grows :
    (turn : Turn) (t : ℕ) (lang : String) (ss : StreamedSentence) (o : Option SentenceRow) (db : Db)
    → Grows db (insert_at turn t lang ss o db).1
insert_at-Grows turn t lang ss none db = Grows-refl db
insert_at-Grows turn t lang ss (some r) db =
    if-Grows (str_eq ss.content.sentence "") db (some empty_sentence, db) _ (Grows-refl db)
      (if-Grows (turn.insert_fails ss.sent_index) db (some not_inserted, db) _ (Grows-refl db)
        (insert_sentence_breakdown-Grows (to_breakdown_row t lang r.seq ss) db))

progress-db : (i : ℤ) (p : Progress) (x : Option Message × Db) → (progress i p x).db ≡ x.1
progress-db i p (none, db) = refl
progress-db i p (some m, db) = refl

insert_all-Grows :
    (turn : Turn) (t : ℕ) (lang : String) (batch : List SentenceRow) (rest : List StreamedSentence)
    (p : Progress)
    → Grows p.db (insert_all turn t lang batch rest p).db
unfolding insert_all insert_single_breakdown
insert_all-Grows turn t lang batch [] p = Grows-refl p.db
insert_all-Grows turn t lang batch (ss ∷ rest) p =
    let x = insert_single_breakdown turn t lang batch ss p.db in
    let one : Grows p.db x.1 =
      if-Grows (ltb_ℤ ss.sent_index (pos 0)) p.db (some index_out_of_range, p.db) _
        (Grows-refl p.db)
        (insert_at-Grows turn t lang ss (nth (pos_part ss.sent_index) batch) p.db) in
    Grows-trans p.db (progress ss.sent_index p x).db _
      (subst (Grows p.db) (sym (progress-db ss.sent_index p x)) one)
      (insert_all-Grows turn t lang batch rest (progress ss.sent_index p x))

count_usage-Grows : (turn : Turn) (u : TokenUsage) (db : Db) → Grows db (count_usage turn u db).1
unfolding count_usage upsert_llm_quota
count_usage-Grows turn u db =
    if-Grows (has_usage u) db
      (if turn.usage_fails then (true, db) else (false, upsert_llm_quota (quota_day turn.app) u db))
      (false, db)
      (if-Grows turn.usage_fails db (true, db) (false, upsert_llm_quota (quota_day turn.app) u db)
        (Grows-refl db) (Grows-tables db _ refl refl))
      (Grows-refl db)

pub process-Grows :
    (r : Runner) (turn : Turn) (t : ℕ) (lang : String) (batch : List SentenceRow) (db : Db)
    → Grows db (process r turn t lang batch db).1
unfolding process
process-Grows r turn t lang batch db =
    let g = do_sentence_breakdown_stream lang r.model r.prompt (length batch) turn.call in
    let p : Progress = record { saved = none; indexes = []; db = db } in
    let q = insert_all turn t lang batch g.streamed p in
    if-Grows turn.video_fails db (some no_video_details, db) (conclude turn g (length batch) q)
      (Grows-refl db)
      (Grows-trans db q.db _ (insert_all-Grows turn t lang batch g.streamed p)
        (count_usage-Grows turn g.usage q.db))
