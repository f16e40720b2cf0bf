-- ===== src/Breakdowns/Remains.antt =====
-- Nothing but a request for its own key touches the row of a failed batch.
use Prim.Native.String.{String}
use qarau.Common.{
  if◌then◌else◌, ℕ, ◌+◌, ◌≡◌, refl, sym, ap, subst, Bool, true, false, not, Option, none, some,
  List, [], ◌∷◌, inl, inr, Bool-cases, if-cases, if-false, arith, ltb, leb, length,
}
use qarau.Common.Int.{ℤ}
use qarau.Common.Result.{ok}
use qarau.Common.Tables.{
  In, find, update_where, update_returning, update_where-In, oldest, oldest-IsOldest, IsOldest,
}
use qarau.Store.{SentenceRow, exists}
use qarau.Service.{Clock, quota_day}
use qarau.Breakdowns.{
  Batch, batch_failed, Message, Db, TokenUsage, batch_content, get_llm_quota, empty_batch,
  count_sentence_breakdowns, is_sentence,
}
use qarau.Breakdowns.Batches.{
  is_claimable_batch, has_batch_id, claimed_batch, set_batches, claim_breakdown_batch,
  is_batch_lease, mark_breakdown_batch_done, mark_breakdown_batch_failed, has_batch_key, retried,
  enqueue_breakdown_batch, is_running_batch, is_pending_batch, count_active_batches,
  get_breakdown_batch,
}
use qarau.Breakdowns.Runner.{
  process, Turn, Runner, settle, mark_done, mark_failed, marked, work, after_claim, try_batch,
  lock_period,
}
use qarau.Breakdowns.Requests.{proceed, refuse, enqueue_batch, enqueued, batch_end, non_failed}
use qarau.Breakdowns.Kept.{process-queue}
use qarau.Breakdowns.Valid.{AreDistinct, In-AreDistinct}
use qarau.Breakdowns.Grown.{Grows, Grows-refl, Grows-tables, Grows-trans, process-Grows}

-- The row of a failed batch is as it was, beside tables that have grown.
pub record Remains (b : Batch) (db u : Db) : Type 0 where
  pub grown : Grows db u
  pub kept : In b u.batches

pub Remains-refl : (b : Batch) (db : Db) → In b db.batches → Remains b db db
Remains-refl b db m = record { grown = Grows-refl db; kept = m }

pub Remains-trans : (b : Batch) (db u v : Db) → Grows db u → Remains b u v → Remains b db v
Remains-trans b db u v h k = record { grown = Grows-trans db u v h k.grown; kept = k.kept }

if-Remains :
    {A : Type 0} (c : Bool) (b : Batch) (db : Db) (x y : A × Db)
    → Remains b db x.1
    → Remains b db y.1
    → Remains b db (if c then x else y).1
if-Remains true b db x y h k = h
if-Remains false b db x y h k = k

module _ (b : Batch) (failed : b.state ≡ batch_failed) where
  not_leased : (id : ℕ) (name : String) → is_batch_lease id name b ≡ false
  not_leased id name =
      let stopped : is_running_batch b.state ≡ false = ap is_running_batch failed in ground arith

  not_claimable : (now : ℕ) (locked : ℕ → Bool) → is_claimable_batch now locked b ≡ false
  unfolding is_claimable_batch
  not_claimable now locked =
      let stopped : is_running_batch b.state ≡ false = ap is_running_batch failed in
      let settled : is_pending_batch b.state ≡ false = ap is_pending_batch failed in ground arith

  update_where-Remains :
      (p : Batch → Bool) (f : Batch → Batch) (db : Db)
      → p b ≡ false
      → In b db.batches
      → Remains b db (set_batches db (update_where p f db.batches))
  update_where-Remains p f db e m = record {
    grown = Grows-tables db _ refl refl;
    kept =
        subst (λ x. In x (update_where p f db.batches)) (if-false (p b) (f b) b e)
          (update_where-In p f b db.batches m);
  }

  marked-Remains :
      (p : Batch → Bool) (f : Batch → Batch) (db : Db)
      → p b ≡ false
      → In b db.batches
      → Remains b db (marked db (update_returning p f db.batches))
  unfolding update_returning
  marked-Remains p f db e m = go (find p db.batches)
    where
      go :
          (o : Option Batch)
          → Remains b db
              (marked db (elim o [ none ↦ none | some x ↦ some (update_where p f db.batches) ]))
      go none = Remains-refl b db m
      go (some x) = update_where-Remains p f db e m

  settle-Remains :
      (r : Runner) (turn : Turn) (c : Batch) (x : Option Message × Db)
      → In b x.1.batches
      → Remains b x.1 (settle r turn c x)
  unfolding mark_failed mark_done mark_breakdown_batch_done mark_breakdown_batch_failed
  settle-Remains r turn c (none, db) m =
      if-cases (Remains b db) turn.mark_fails _ _ (λ e. Remains-refl b db m)
        (λ e. marked-Remains (is_batch_lease c.id r.name) _ db (not_leased c.id r.name) m)
  settle-Remains r turn c (some e, db) m =
      if-cases (Remains b db) turn.mark_fails _ _ (λ e'. Remains-refl b db m)
        (λ e'. marked-Remains (is_batch_lease c.id r.name) _ db (not_leased c.id r.name) m)

  work-Remains :
      (r : Runner) (turn : Turn) (c : Batch) (batch : List SentenceRow) (db : Db)
      → In b db.batches
      → Remains b db (work r turn c batch db)
  unfolding work
  work-Remains r turn c [] db m = settle-Remains r turn c (some empty_batch, db) m
  work-Remains r turn c (s ∷ ss) db m =
      let x = process r turn c.transcription_id c.target_lang (s ∷ ss) db in
      let same = process-queue r turn c.transcription_id c.target_lang (s ∷ ss) db in
      Remains-trans b db x.1 _ (process-Grows r turn c.transcription_id c.target_lang (s ∷ ss) db)
        (settle-Remains r turn c x (subst (λ (q : ℕ × List Batch). In b q.1) (sym same) m))

  claim-Remains :
      (r : Runner) (turn : Turn) (until : ℕ) (db : Db)
      → AreDistinct db.next_batch db.batches
      → In b db.batches
      → Remains b db
          (after_claim r turn (claim_breakdown_batch r.name until turn.db turn.locked db) db).1
  unfolding claim_breakdown_batch after_claim
  claim-Remains r turn until db v m =
      go (oldest Batch.created_at (is_claimable_batch turn.db turn.locked) db.batches)
        (oldest-IsOldest Batch.created_at (is_claimable_batch turn.db turn.locked) db.batches)
    where
      other :
          (c : Batch)
          → In c db.batches
          → is_claimable_batch turn.db turn.locked c ≡ true
          → has_batch_id c.id b ≡ false
      other c n e = elim (Bool-cases (has_batch_id c.id b)) [
        | inr f ↦ f
        | inl f ↦
            let same : b ≡ c = In-AreDistinct db.next_batch c b db.batches v n m (ground arith) in
            let gone = not_claimable turn.db turn.locked in
            let taken = ap (is_claimable_batch turn.db turn.locked) same in absurd (ground arith)
      ]

      go :
          (o : Option Batch)
          → IsOldest Batch.created_at (is_claimable_batch turn.db turn.locked) db.batches o
          → Remains b db
              (after_claim r turn
                (elim o [
                  | none ↦ none
                  | some c ↦ some (
                    c,
                    set_batches db (
                        update_where
                          (has_batch_id c.id)
                          (claimed_batch r.name until turn.db)
                          db.batches),
                  )
                ])
                db).1
      go none old = Remains-refl b db m
      go (some c) (n, e, least) =
          let t =
            set_batches db
              (update_where (has_batch_id c.id) (claimed_batch r.name until turn.db) db.batches) in
          let one : Remains b db t =
            update_where-Remains (has_batch_id c.id) (claimed_batch r.name until turn.db) db
              (other c n e) m in
          if-Remains turn.load_fails b db ((true, false), t) _ one
            (Remains-trans b db t _ one.grown (
              work-Remains r turn c (batch_content c.transcription_id c.batch_start_seq t) t
                one.kept))

  -- A round of any runner leaves the row of a failed batch as it is.
  pub try_batch-Remains :
      (available : TokenUsage → Bool) (r : Runner) (turn : Turn) (db : Db)
      → AreDistinct db.next_batch db.batches
      → In b db.batches
      → Remains b db (try_batch available r turn db).1
  unfolding try_batch
  try_batch-Remains available r turn db v m =
      if-Remains turn.quota_fails b db ((false, false), db) _ (Remains-refl b db m)
        (if-Remains (not (available (get_llm_quota (quota_day turn.app) db))) b db
          ((false, true), db) _ (Remains-refl b db m)
          (if-Remains turn.claim_fails b db ((false, false), db) _ (Remains-refl b db m)
            (claim-Remains r turn (turn.app + lock_period) db v m)))

  -- So does a request for another key.
  module _ (available : TokenUsage → Bool) (c : Clock) (t : ℕ) (start : ℤ) (lang : String) (db : Db)
      (other : has_batch_key t start lang b ≡ false) (m : In b db.batches) where
    enqueue_breakdown_batch-Remains :
        Remains b db (enqueued db (enqueue_breakdown_batch t start lang c.db db)).1
    unfolding enqueue_breakdown_batch
    enqueue_breakdown_batch-Remains =
        elim (Bool-cases (exists (has_batch_key t start lang) db.batches)) [
          | inl e ↦ rw e (update_where-Remains (has_batch_key t start lang) retried db other m)
          | inr e ↦ elim (Bool-cases (exists (is_sentence t start) db.sentences)) [
            | inr f ↦ rw (e, f) (Remains-refl b db m)
            | inl f ↦ rw (e, f) (record { grown = Grows-tables db _ refl refl; kept = inr m })
          ]
        ]

    pub enqueue_batch-Remains :
        (batch : List SentenceRow)
        → Remains b db (enqueue_batch available c t lang start batch db).1
    enqueue_batch-Remains [] = Remains-refl b db m
    enqueue_batch-Remains (s ∷ ss) =
        if-Remains
          (ltb 0 (count_sentence_breakdowns t start (batch_end start (length (s ∷ ss))) lang db)) b
          db (ok proceed, db) _ (Remains-refl b db m)
          (if-Remains (non_failed (get_breakdown_batch t start lang db)) b db (ok proceed, db) _
            (Remains-refl b db m)
            (if-Remains (not (available (get_llm_quota (quota_day c.app) db))) b db
              (ok (refuse "no quota"), db) _ (Remains-refl b db m)
              (if-Remains (leb 3 (count_active_batches t db)) b db (ok (refuse "queue full"), db) _
                (Remains-refl b db m) enqueue_breakdown_batch-Remains)))
