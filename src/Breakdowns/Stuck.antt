-- ===== src/Breakdowns/Stuck.antt =====
-- A batch that failed after some of its sentences were stored is never retried.
use Prim.Native.String.{String}
use native.Mathlib.Nat.{le_trans}
use qarau.Common.{
  ℕ, ◌<◌, ◌≡◌, refl, sym, ap, ◌∙◌, subst, ◌≢◌, Bool, true, false, some, List, [], ◌∷◌, inl, inr,
  Bool-cases, if-true, arith, ltb, length,
}
use qarau.Common.Int.{ℤ}
use qarau.Common.Result.{Result, ok}
use qarau.Common.Tables.{In, find-some, find-In}
use qarau.Store.{SentenceRow, exists}
use qarau.Service.{Clock}
use qarau.Breakdowns.{
  count_sentence_breakdowns, get_sentences_range, Batch, batch_failed, TokenUsage, Db, batch_start,
  batch_content,
}
use qarau.Breakdowns.Batches.{get_breakdown_batch, has_batch_key}
use qarau.Breakdowns.Requests.{
  batch_end, enqueue_breakdowns, enqueue_batch, proceed, EnqueueBreakdownsResponse,
}
use qarau.Breakdowns.Valid.{AreDistinct, key-parts, own_key-exists}
use qarau.Breakdowns.Bounded.{IsBounded}
use qarau.Breakdowns.History.{Step, ask, round, take_step, history, step-IsBounded}
use qarau.Breakdowns.Grown.{Grows}
use qarau.Breakdowns.Remains.{
  Remains, Remains-refl, Remains-trans, try_batch-Remains, enqueue_batch-Remains,
}

not_again :
    (t : ℕ) (start : ℤ) (lang : String) (c : Batch) (bs : List Batch)
    → In c bs
    → has_batch_key t start lang c ≡ true
    → exists (has_batch_key t start lang) bs ≢ false
unfolding exists
not_again t start lang c [] m k e = absurd m
not_again t start lang c (d ∷ ds) (inl q) k e =
    let l = ap (has_batch_key t start lang) q in absurd (ground arith)
not_again t start lang c (d ∷ ds) (inr m) k e = not_again t start lang c ds m k (ground arith)

-- A key names one row.
key-In :
    (t : ℕ) (start : ℤ) (lang : String) (next : ℕ) (b c : Batch) (bs : List Batch)
    → AreDistinct next bs
    → In b bs
    → has_batch_key t start lang b ≡ true
    → In c bs
    → has_batch_key t start lang c ≡ true
    → c ≡ b
key-In t start lang next b c [] v m k n l = absurd m
key-In t start lang next b c (d ∷ ds) v (inl p) k (inl q) l = q ∙ sym p
key-In t start lang next b c (d ∷ ds) (lt, new, v) (inl p) k (inr n) l = absurd (
    not_again t start lang c ds n l
      (own_key-exists t start lang d ds (ap (has_batch_key t start lang) (sym p) ∙ k) new))
key-In t start lang next b c (d ∷ ds) (lt, new, v) (inr m) k (inl q) l = absurd (
    not_again t start lang b ds m k
      (own_key-exists t start lang d ds (ap (has_batch_key t start lang) (sym q) ∙ l) new))
key-In t start lang next b c (d ∷ ds) (lt, new, v) (inr m) k (inr n) l =
    key-In t start lang next b c ds v m k n l

get_breakdown_batch-In :
    (t : ℕ) (start : ℤ) (lang : String) (b : Batch) (db : Db)
    → AreDistinct db.next_batch db.batches
    → In b db.batches
    → has_batch_key t start lang b ≡ true
    → get_breakdown_batch t start lang db ≡ some b
unfolding get_breakdown_batch
get_breakdown_batch-In t start lang b db v m k =
    let (c, q) = find-some (has_batch_key t start lang) db.batches b m k in
    let (n, l) = find-In (has_batch_key t start lang) db.batches c q in
    q ∙ ap some (key-In t start lang db.next_batch b c db.batches v m k n l)

batch_content-sentences :
    (t : ℕ) (seq seq' : ℤ) (db u : Db)
    → batch_start seq' ≡ batch_start seq
    → u.sentences ≡ db.sentences
    → batch_content t seq' u ≡ batch_content t seq db
unfolding batch_content get_sentences_range
batch_content-sentences t seq seq' db u e f = rw (e, f) refl

-- Breakdowns of some sentence of the batch are stored.
abbrev pub SomeStored : ℕ → String → ℤ → Db → Type 0
SomeStored t lang seq db =
    0
    < count_sentence_breakdowns t (batch_start seq)
        (batch_end (batch_start seq) (length (batch_content t seq db))) lang db

SomeStored-Grows :
    (t : ℕ) (lang : String) (seq : ℤ) (db u : Db)
    → Grows db u
    → SomeStored t lang seq db
    → SomeStored t lang seq u
unfolding count_sentence_breakdowns
SomeStored-Grows t lang seq db u g h = rw (batch_content-sentences t seq seq db u refl g.same) (
    le_trans h (
      g.more t (batch_start seq) (batch_end (batch_start seq) (length (batch_content t seq db)))
        lang))

-- A request for a batch of which some breakdown is stored changes nothing.
enqueue_batch-stored :
    (available : TokenUsage → Bool) (c : Clock) (t : ℕ) (start : ℤ) (lang : String)
    (batch : List SentenceRow) (db : Db)
    → 0 < count_sentence_breakdowns t start (batch_end start (length batch)) lang db
    → (enqueue_batch available c t lang start batch db).1 ≡ db
enqueue_batch-stored available c t start lang [] db h = refl
enqueue_batch-stored available c t start lang (s ∷ ss) db h =
    ap (λ (x : Result EnqueueBreakdownsResponse × Db). x.1)
      (if-true
        (ltb 0 (count_sentence_breakdowns t start (batch_end start (length (s ∷ ss))) lang db))
        (ok proceed, db) _ (ground arith))

module _ (t : ℕ) (lang : String) (seq : ℤ) (b : Batch)
    (key : has_batch_key t (batch_start seq) lang b ≡ true) (failed : b.state ≡ batch_failed) where
  ask-Remains :
      (available : TokenUsage → Bool) (c : Clock) (t' : ℕ) (lang' : String) (seq' : ℤ) (db : Db)
      → In b db.batches
      → SomeStored t lang seq db
      → Remains b db (enqueue_breakdowns available c t' lang' seq' db).1
  unfolding enqueue_breakdowns
  ask-Remains available c t' lang' seq' db m h =
      elim (Bool-cases (has_batch_key t' (batch_start seq') lang' b)) [
        | inr e ↦
            enqueue_batch-Remains b failed available c t' (batch_start seq') lang' db e m
              (batch_content t' seq' db)
        | inl e ↦
            let (i, j, k) = key-parts t (batch_start seq) lang b key in
            let (i', j', k') = key-parts t' (batch_start seq') lang' b e in
            let same : (enqueue_breakdowns available c t' lang' seq' db).1 ≡ db =
              enqueue_batch-stored available c t' (batch_start seq') lang'
                (batch_content t' seq' db) db
                (rw
                  (
                    sym i' ∙ i,
                    sym k' ∙ k,
                    batch_content-sentences t seq seq' db db (sym j' ∙ j) refl,
                    sym j' ∙ j,
                  )
                  h) in
            subst (Remains b db) (sym same) (Remains-refl b db m)
      ]

  take_step-Remains :
      (available : TokenUsage → Bool) (s : Step) (db : Db)
      → IsBounded db
      → In b db.batches
      → SomeStored t lang seq db
      → Remains b db (take_step available s db)
  take_step-Remains available (ask c t' lang' seq') db v m h =
      ask-Remains available c t' lang' seq' db m h
  take_step-Remains available (round r turn) db v m h =
      try_batch-Remains b failed available r turn db (v.0) m

  history-Remains :
      (available : TokenUsage → Bool) (steps : List Step) (db : Db)
      → IsBounded db
      → In b db.batches
      → SomeStored t lang seq db
      → IsBounded (history available steps db) × Remains b db (history available steps db)
  unfolding history
  history-Remains available [] db v m h = (v, Remains-refl b db m)
  history-Remains available (s ∷ ss) db v m h =
      let u = take_step available s db in
      let one : Remains b db u = take_step-Remains available s db v m h in
      let (w, rest) =
        history-Remains available ss u (step-IsBounded available s db v) one.kept
          (SomeStored-Grows t lang seq db u one.grown h) in
      (w, Remains-trans b db u _ one.grown rest)

-- From a database in which the batches' ids and keys are distinct and no transcription has more
-- than three pending or running batches: once a batch has failed while breakdowns of some of its
-- sentences are stored, it stays as it is over every sequence of requests, for this batch or
-- others, and of rounds of any runners, whatever the language model answers: after it,
-- GetBreakdownBatch finds the same failed row, breakdowns of some of its sentences are stored, and
-- one more request for it changes nothing.
pub history-failed_batch :
    (available : TokenUsage → Bool) (steps : List Step) (c : Clock) (t : ℕ) (lang : String)
    (seq : ℤ) (b : Batch) (db : Db)
    → IsBounded db
    → In b db.batches
    → has_batch_key t (batch_start seq) lang b ≡ true
    → b.state ≡ batch_failed
    → SomeStored t lang seq db
    → (get_breakdown_batch t (batch_start seq) lang (history available steps db) ≡ some b)
      × SomeStored t lang seq (history available steps db)
      × ((enqueue_breakdowns available c t lang seq (history available steps db)).1
          ≡ history available steps db)
unfolding enqueue_breakdowns
history-failed_batch available steps c t lang seq b db v m key failed h =
    let u = history available steps db in
    let (w, r) = history-Remains t lang seq b key failed available steps db v m h in
    let stored = SomeStored-Grows t lang seq db u r.grown h in
    (
      get_breakdown_batch-In t (batch_start seq) lang b u (w.0) r.kept key,
      stored,
      enqueue_batch-stored available c t (batch_start seq) lang (batch_content t seq u) u stored,
    )
