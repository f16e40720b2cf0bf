-- ===== src/Breakdowns/History.antt =====
-- The bound on unfinished work: over every history of requests and rounds of the runner, at most
-- three batches of a transcription are pending or running.
use qarau.Common.Result.{ok}
use qarau.Breakdowns.Runner.{try_batch, Turn, Runner}
use qarau.Service.{quota_day, Clock}
use native.Mathlib.Nat.{le_refl}
use Prim.Native.String.{String}
use qarau.Common.{
  length, ltb, leb, Bool, ◌==◌, ℕ, ◌+◌, ◌≤◌, ◌<◌, ◌≡◌, ◌≢◌, refl, sym, ◌∙◌, subst, true, false,
  List, [], ◌∷◌, inl, inr, Bool-cases, arith,
}
use qarau.Common.Int.{ℤ}
use qarau.Common.Tables.{update_where}
use qarau.Store.{SentenceRow, exists}
use qarau.Breakdowns.{
  count_sentence_breakdowns, batch_content, batch_start, get_llm_quota, TokenUsage, is_sentence,
  Batch, Db, count_where,
}
use qarau.Breakdowns.Batches.{
  get_breakdown_batch, is_active_of, has_batch_key, retried, new_batch, set_batches,
  is_failed_batch, enqueue_breakdown_batch, count_active_batches,
}
use qarau.Breakdowns.Requests.{
  non_failed, batch_end, proceed, enqueue_batch, admit_batch, enqueue_breakdowns, enqueued,
}
use qarau.Breakdowns.Valid.{
  count_where-update-le, count_where-update-suc, update_where-AreDistinct, key-parts, AreDistinct,
  IsNewBatch, SameBatch,
}
use qarau.Breakdowns.Bounded.{if-IsBounded, try_batch-IsBounded, IsBounded}

retried-SameBatch : (b : Batch) → SameBatch b (retried b)
retried-SameBatch b = elim (Bool-cases (is_failed_batch b.state)) [
  | inl e ↦ rw e (refl, refl, refl, refl)
  | inr e ↦ rw e (refl, refl, refl, refl)
]

-- A retried batch counts for its own transcription only.
retried-other :
    (t u : ℕ) (start : ℤ) (lang : String) (b : Batch)
    → t ≢ u
    → has_batch_key t start lang b ≡ true
    → is_active_of u (retried b) ≡ true
    → is_active_of u b ≡ true
retried-other t u start lang b other k a =
    let (e, p, q) = key-parts t start lang b k in
    let (i, same, s, l) = retried-SameBatch b in absurd (other (sym (same ∙ e) ∙ ground arith))

retry-IsBounded :
    (t : ℕ) (start : ℤ) (lang : String) (db : Db)
    → count_active_batches t db < 3
    → IsBounded db
    → IsBounded (set_batches db (update_where (has_batch_key t start lang) retried db.batches))
unfolding count_active_batches
retry-IsBounded t start lang db room (v, h) = (
  update_where-AreDistinct (has_batch_key t start lang) retried db.next_batch db.batches
      retried-SameBatch v,
  λ u. elim (Bool-cases (t == u)) [
    | inl e ↦
        let one =
          count_where-update-suc (is_active_of u) t start lang retried db.next_batch db.batches v in
        let same : t ≡ u = ground arith in
        omega (arith, one, subst (λ w. count_where (is_active_of w) db.batches < 3) same room)
    | inr e ↦ omega (
      arith,
      count_where-update-le (is_active_of u) (has_batch_key t start lang) retried db.batches
          (λ b m k a. retried-other t u start lang b (ground arith) k a),
      h u,
    )
  ],
)

IsNewBatch-new_batch :
    (n m t : ℕ) (start : ℤ) (lang : String) (now : ℕ) (bs : List Batch)
    → n ≤ m
    → exists (has_batch_key t start lang) bs ≡ false
    → AreDistinct n bs
    → IsNewBatch (new_batch m t start lang now) bs
unfolding exists
IsNewBatch-new_batch n m t start lang now [] le h v = tt
IsNewBatch-new_batch n m t start lang now (b ∷ bs) le h (lt, new, v) = (
  λ e. absurd (omega arith),
  ground arith,
  IsNewBatch-new_batch n m t start lang now bs le (ground arith) v,
)

AreDistinct-mono : (n m : ℕ) (bs : List Batch) → n ≤ m → AreDistinct n bs → AreDistinct m bs
AreDistinct-mono n m [] le v = tt
AreDistinct-mono n m (b ∷ bs) le (lt, new, v) = (omega arith, new, AreDistinct-mono n m bs le v)

new-count :
    (t u : ℕ) (start : ℤ) (lang : String) (id now : ℕ) (bs : List Batch)
    → count_where (is_active_of t) bs < 3
    → count_where (is_active_of u) bs ≤ 3
    → count_where (is_active_of u) (new_batch id t start lang now ∷ bs) ≤ 3
unfolding count_where
new-count t u start lang id now bs room h = elim (Bool-cases (t == u)) [
  | inl e ↦
      let same : t ≡ u = ground arith in
      rw e (omega (arith, subst (λ w. count_where (is_active_of w) bs < 3) same room))
  | inr e ↦ rw e h
]

enqueue_breakdown_batch-IsBounded :
    (t : ℕ) (start : ℤ) (lang : String) (now : ℕ) (db : Db)
    → count_active_batches t db < 3
    → IsBounded db
    → IsBounded (enqueued db (enqueue_breakdown_batch t start lang now db)).1
unfolding enqueue_breakdown_batch count_active_batches
enqueue_breakdown_batch-IsBounded t start lang now db room (v, h) =
    elim (Bool-cases (exists (has_batch_key t start lang) db.batches)) [
      | inl e ↦ rw e (retry-IsBounded t start lang db room (v, h))
      | inr e ↦ elim (Bool-cases (exists (is_sentence t start) db.sentences)) [
        | inr f ↦ rw e (rw f (v, h))
        | inl f ↦ rw e (
            rw f (
              (
                omega arith,
                IsNewBatch-new_batch db.next_batch db.next_batch t start lang now db.batches
                    (le_refl db.next_batch) e v,
                AreDistinct-mono db.next_batch (db.next_batch + 1) db.batches (omega arith) v,
              ),
              λ u. new-count t u start lang db.next_batch now db.batches room (h u),
            ))
      ]
    ]

enqueued-IsBounded :
    (available : TokenUsage → Bool) (c : Clock) (t : ℕ) (start : ℤ) (lang : String) (db : Db)
    → IsBounded db
    → IsBounded (admit_batch available c t lang start db).1
enqueued-IsBounded available c t start lang db h =
    elim (Bool-cases (available (get_llm_quota (quota_day c.app) db))) [
      | inr e ↦ rw e h
      | inl e ↦ elim (Bool-cases (leb 3 (count_active_batches t db))) [
        | inl f ↦ rw e (rw f h)
        | inr f ↦
            rw e (rw f (enqueue_breakdown_batch-IsBounded t start lang c.db db (ground arith) h))
      ]
    ]

enqueue_batch-IsBounded :
    (available : TokenUsage → Bool) (c : Clock) (t : ℕ) (lang : String) (start : ℤ)
    (batch : List SentenceRow) (db : Db)
    → IsBounded db
    → IsBounded (enqueue_batch available c t lang start batch db).1
enqueue_batch-IsBounded available c t lang start [] db h = h
enqueue_batch-IsBounded available c t lang start (s ∷ ss) db h =
    if-IsBounded
      (ltb 0 (count_sentence_breakdowns t start (batch_end start (length (s ∷ ss))) lang db))
      (ok proceed, db) _ h
      (if-IsBounded (non_failed (get_breakdown_batch t start lang db)) (ok proceed, db) _ h
        (enqueued-IsBounded available c t start lang db h))

enqueue_breakdowns-IsBounded :
    (available : TokenUsage → Bool) (c : Clock) (t : ℕ) (lang : String) (seq : ℤ) (db : Db)
    → IsBounded db
    → IsBounded (enqueue_breakdowns available c t lang seq db).1
unfolding enqueue_breakdowns
enqueue_breakdowns-IsBounded available c t lang seq db h =
    enqueue_batch-IsBounded available c t lang (batch_start seq) (batch_content t seq db) db h

-- A viewer's request, or a round of a runner.
pub data Step : Type 0 where
  ask : Clock → ℕ → String → ℤ → Step
  round : Runner → Turn → Step

abbrev pub take_step : (TokenUsage → Bool) → Step → Db → Db
take_step available (ask c t lang seq) db = (enqueue_breakdowns available c t lang seq db).1
take_step available (round r turn) db = (try_batch available r turn db).1

unfoldable pub history : (TokenUsage → Bool) → List Step → Db → Db
history available [] db = db
history available (s ∷ ss) db = history available ss (take_step available s db)

pub step-IsBounded :
    (available : TokenUsage → Bool) (s : Step) (db : Db)
    → IsBounded db
    → IsBounded (take_step available s db)
step-IsBounded available (ask c t lang seq) db h =
    enqueue_breakdowns-IsBounded available c t lang seq db h
step-IsBounded available (round r turn) db h = try_batch-IsBounded available r turn db h

-- From a database in which the batches' ids and keys are distinct and no transcription has more
-- than three pending or running batches, every sequence of requests and of rounds of any runners,
-- one after another, whichever statements fail in the rounds, leads to such a database: no request
-- makes a fourth unfinished batch, and none a second row for a key.
pub history-IsBounded :
    (available : TokenUsage → Bool) (steps : List Step) (db : Db)
    → IsBounded db
    → IsBounded (history available steps db)
unfolding history
history-IsBounded available [] db h = h
history-IsBounded available (s ∷ ss) db h =
    history-IsBounded available ss (take_step available s db) (step-IsBounded available s db h)
