-- ===== src/Breakdowns/Promised.antt =====
-- When EnqueueBreakdowns sends a client to poll, and what it promises then.
use Prim.Native.String.{String}
use qarau.Common.{
  not, ap, if-cases, ◌≢◌, ℕ, ◌<◌, ◌≡◌, refl, Bool, true, false, Option, none, some, List, [], ◌∷◌,
  inl, inr, ◌⊎◌, arith, ltb, leb, length,
}
use qarau.Common.Int.{ℤ}
use qarau.Common.Result.{Error, Result, ok, err}
use qarau.Store.{SentenceRow, exists}
use qarau.Service.{quota_day, Clock}
use qarau.Breakdowns.{
  is_sentence, batch_content, get_llm_quota, batch_start, count_sentence_breakdowns, Batch,
  TokenUsage, Db,
}
use qarau.Breakdowns.Batches.{
  count_active_batches, has_batch_key, is_failed_batch, get_breakdown_batch,
  enqueue_breakdown_batch,
}
use qarau.Breakdowns.Requests.{
  enqueue_batch, batch_end, refuse, admit_batch, enqueued, EnqueueBreakdownsResponse,
  enqueue_breakdowns, proceed, non_failed,
}
use qarau.Breakdowns.Enqueued.{HasBatch, enqueue_breakdown_batch-HasBatch}

abbrev pub Polled : ℕ → ℤ → String → ℕ → Db → Type 0
Polled t start lang n db =
    (0 < count_sentence_breakdowns t start (batch_end start n) lang db) ⊎ HasBatch t start lang db

-- What a call tells of `P`: it holds if there is a result, and not if there is an error.
abbrev Outcome : Result Db → Type 0 → Type 0
Outcome (ok u) P = P
Outcome (err e) P = ¬ P

HasBatch-non_failed :
    (t : ℕ) (start : ℤ) (lang : String) (db : Db) (b : Batch)
    → get_breakdown_batch t start lang db ≡ some b
    → is_failed_batch b.state ≡ false
    → non_failed (get_breakdown_batch t start lang db) ≢ false
HasBatch-non_failed t start lang db b q runs f =
    let shown = ap non_failed q in absurd (ground arith)

-- The row of the batch is there, or the first sentence, to which a new row refers.
abbrev pub HasRow : ℕ → ℤ → String → Db → Type 0
HasRow t start lang db =
    (exists (has_batch_key t start lang) db.batches ≡ true)
    ⊎ (exists (is_sentence t start) db.sentences ≡ true)

-- A batch is enqueued: the day's quota allows it, fewer than three batches of the transcription are
-- pending or running, and the batch's row is there, or the first sentence that the new row refers
-- to.
abbrev pub Admits : (TokenUsage → Bool) → Clock → ℕ → ℤ → String → Db → Type 0
Admits available c t start lang db =
    (available (get_llm_quota (quota_day c.app) db) ≡ true)
    × (count_active_batches t db < 3)
    × HasRow t start lang db

-- The three outcomes, and when each is: there was something to poll for already; a batch is
-- enqueued; or the answer is another one.
abbrev pub Keeps :
    (TokenUsage → Bool)
    → Clock
    → ℕ
    → ℤ
    → String
    → List SentenceRow
    → Db
    → Result EnqueueBreakdownsResponse × Db
    → Type 0
Keeps available c t start lang batch db (r, u) =
    ((batch ≢ []) × Polled t start lang (length batch) db × (r ≡ ok proceed) × (u ≡ db))
    ⊎ ((batch ≢ [])
        × (¬ Polled t start lang (length batch) db)
        × Admits available c t start lang db
        × (r ≡ ok proceed)
        × HasBatch t start lang u)
    ⊎ (((batch ≡ [])
          ⊎ ((¬ Polled t start lang (length batch) db) × (¬ Admits available c t start lang db)))
        × (r ≢ ok proceed)
        × (u ≡ db))

non_failed-HasBatch :
    (t : ℕ) (start : ℤ) (lang : String) (db : Db)
    → non_failed (get_breakdown_batch t start lang db) ≡ true
    → HasBatch t start lang db
non_failed-HasBatch t start lang db e = go (get_breakdown_batch t start lang db) refl e
  where
    go :
        (o : Option Batch)
        → get_breakdown_batch t start lang db ≡ o
        → non_failed o ≡ true
        → HasBatch t start lang db
    go none q h = absurd (ground arith)
    go (some b) q h = (b, q, ground arith)

refuse-other : (message : String) → ok (refuse message) ≢ ok proceed
refuse-other message e = absurd (ground arith)

failed-other : (e : Error) → err e ≢ ok proceed
failed-other e h = absurd (ground arith)

enqueue_breakdown_batch-rows :
    (t : ℕ) (start : ℤ) (lang : String) (now : ℕ) (db : Db)
    → Outcome (enqueue_breakdown_batch t start lang now db) (HasRow t start lang db)
unfolding enqueue_breakdown_batch
enqueue_breakdown_batch-rows t start lang now db =
    if-cases (λ r. Outcome r (HasRow t start lang db))
      (exists (has_batch_key t start lang) db.batches) _ _ (λ k. inl k)
      (λ k.
        if-cases (λ r. Outcome r (HasRow t start lang db))
          (not (exists (is_sentence t start) db.sentences)) _ _
          (λ f x. elim x [ inl there ↦ absurd (ground arith) | inr there ↦ absurd (ground arith) ])
          (λ f. inr (ground arith)))

module _ (available : TokenUsage → Bool) (c : Clock) (t : ℕ) (start : ℤ) (lang : String)
    (s : SentenceRow) (ss : List SentenceRow) (db : Db) where
  abbrev KeepsAll : Result EnqueueBreakdownsResponse × Db → Type 0
  KeepsAll = Keeps available c t start lang (s ∷ ss) db

  some_batch : s ∷ ss ≢ []
  some_batch e = absurd (ground arith)

  enqueued-Keeps :
      (¬ Polled t start lang (length (s ∷ ss)) db)
      → available (get_llm_quota (quota_day c.app) db) ≡ true
      → count_active_batches t db < 3
      → KeepsAll (enqueued db (enqueue_breakdown_batch t start lang c.db db))
  enqueued-Keeps new quota room =
      go (enqueue_breakdown_batch t start lang c.db db) refl
        (enqueue_breakdown_batch-rows t start lang c.db db)
    where
      go :
          (x : Result Db)
          → enqueue_breakdown_batch t start lang c.db db ≡ x
          → Outcome x (HasRow t start lang db)
          → KeepsAll (enqueued db x)
      go (err e) q none_there =
          inr (inr (inr (new, (λ (a, room', there). none_there there)), failed-other e, refl))
      go (ok u) q there = inr (
          inl (
            some_batch,
            new,
            (quota, room, there),
            refl,
            enqueue_breakdown_batch-HasBatch t start lang c.db db u q,
          ))

  admit_batch-Keeps :
      (¬ Polled t start lang (length (s ∷ ss)) db)
      → KeepsAll (admit_batch available c t lang start db)
  admit_batch-Keeps new =
      if-cases KeepsAll (not (available (get_llm_quota (quota_day c.app) db))) _ _
        (λ e.
          inr (inr (inr (new, λ (a, room, there). ground arith), refuse-other "no quota", refl)))
        (λ e.
          if-cases KeepsAll (leb 3 (count_active_batches t db)) _ _
            (λ f.
              inr (
                inr (inr (new, λ (a, room, there). ground arith), refuse-other "queue full", refl)))
            (λ f. enqueued-Keeps new (ground arith) (ground arith)))

  enqueue_batch-Keeps : KeepsAll (enqueue_batch available c t lang start (s ∷ ss) db)
  enqueue_batch-Keeps =
      if-cases KeepsAll
        (ltb 0 (count_sentence_breakdowns t start (batch_end start (length (s ∷ ss))) lang db)) _ _
        (λ e. inl (some_batch, inl (ground arith), refl, refl))
        (λ e.
          if-cases KeepsAll (non_failed (get_breakdown_batch t start lang db)) _ _
            (λ f. inl (some_batch, inr (non_failed-HasBatch t start lang db f), refl, refl))
            (λ f. admit_batch-Keeps (λ p. elim p [
              | inl some_there ↦ absurd (ground arith)
              | inr (b, q, runs) ↦ HasBatch-non_failed t start lang db b q runs f
            ])))

-- EnqueueBreakdowns answers in one of three ways. If the batch has sentences, and a breakdown of
-- them is stored or there is a batch that has not failed, then it sends the client to poll and
-- changes nothing. If the batch has sentences but neither of these is there, and the quota of the
-- day allows a batch, fewer than three batches of the transcription are pending or running, and the
-- batch's row or the sentence that it starts with is there, then it sends the client to poll, and a
-- batch that has not failed is there afterwards. In every other case it does not send the client
-- to poll, and changes nothing.
pub enqueue_breakdowns-Keeps :
    (available : TokenUsage → Bool) (c : Clock) (t : ℕ) (lang : String) (seq : ℤ) (db : Db)
    → Keeps available c t
        (batch_start seq)
        lang
        (batch_content t seq db)
        db
        (enqueue_breakdowns available c t lang seq db)
unfolding enqueue_breakdowns
enqueue_breakdowns-Keeps available c t lang seq db = go (batch_content t seq db)
  where
    go :
        (batch : List SentenceRow)
        → Keeps available c t
            (batch_start seq)
            lang
            batch
            db
            (enqueue_batch available c t lang (batch_start seq) batch db)
    go [] = inr (inr (inl refl, refuse-other "no sentences found", refl))
    go (s ∷ ss) = enqueue_batch-Keeps available c t (batch_start seq) lang s ss db
