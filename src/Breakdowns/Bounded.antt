-- ===== src/Breakdowns/Bounded.antt =====
-- A round of the runner, whichever statements fail in it, keeps the bound on unfinished batches.
use qarau.Service.{quota_day}
use qarau.Breakdowns.Kept.{process-queue, queue}
use mathlib.Core.Bool.{not, false≢true}
use Prim.Native.String.{String}
use qarau.Common.{
  ◌+◌, [], not, ◌∷◌, if◌then◌else◌, subst, ℕ, ◌≤◌, ◌≡◌, refl, sym, ◌∙◌, Bool, true, false, Option,
  none, some, List, inl, inr, Bool-cases, arith,
}
use qarau.Common.Tables.{
  oldest-IsOldest, oldest, IsOldest, In, update_where, update_returning, find,
}
use qarau.Store.{SentenceRow}
use qarau.Breakdowns.{
  get_llm_quota, TokenUsage, batch_content, empty_batch, Batch, Message, Db, count_where,
}
use qarau.Breakdowns.Batches.{
  has_batch_id, set_batches, claimed_batch, claim_breakdown_batch, is_claimable_batch,
  mark_breakdown_batch_failed, mark_breakdown_batch_done, is_active_of, is_batch_lease, done_batch,
  failed_batch,
}
use qarau.Breakdowns.Runner.{
  lock_period, process, try_batch, after_claim, work, settle, mark_done, marked, mark_failed, Turn,
  Runner,
}
use qarau.Breakdowns.Valid.{
  In-AreDistinct, count_where-update-le, update_where-AreDistinct, AreDistinct, SameBatch,
}

-- The ids and the keys of the batches are distinct, and no transcription has more than three
-- unfinished batches.
abbrev pub IsBounded : Db → Type 0
IsBounded db =
    AreDistinct db.next_batch db.batches × ((t : ℕ) → count_where (is_active_of t) db.batches ≤ 3)

-- The same of the rows alone.
abbrev pub AreBounded : ℕ → List Batch → Type 0
AreBounded next bs = AreDistinct next bs × ((t : ℕ) → count_where (is_active_of t) bs ≤ 3)

update_where-AreBounded :
    (p : Batch → Bool) (f : Batch → Batch) (next : ℕ) (bs : List Batch)
    → ((b : Batch) → SameBatch b (f b))
    → ((t : ℕ) (b : Batch)
        → In b bs
        → p b ≡ true
        → is_active_of t (f b) ≡ true
        → is_active_of t b ≡ true)
    → AreBounded next bs
    → AreBounded next (update_where p f bs)
update_where-AreBounded p f next bs keeps less (v, h) = (
  update_where-AreDistinct p f next bs keeps v,
  λ t. omega (arith, count_where-update-le (is_active_of t) p f bs (less t), h t),
)

marked-AreBounded :
    (id : ℕ) (name : String) (f : Batch → Batch) (db : Db)
    → ((b : Batch) → SameBatch b (f b))
    → ((t : ℕ) (b : Batch) → is_active_of t (f b) ≡ false)
    → IsBounded db
    → IsBounded (marked db (update_returning (is_batch_lease id name) f db.batches))
unfolding update_returning
marked-AreBounded id name f db keeps ends h = go (find (is_batch_lease id name) db.batches)
  where
    go :
        (o : Option Batch)
        → IsBounded (
            marked db (elim o [
              | none ↦ none
              | some x ↦ some (update_where (is_batch_lease id name) f db.batches)
            ]))
    go none = h
    go (some x) =
        update_where-AreBounded (is_batch_lease id name) f db.next_batch db.batches keeps
          (λ t b m e a. absurd (false≢true (sym (ends t b) ∙ a))) h

done-inactive : (now t : ℕ) (b : Batch) → is_active_of t (done_batch now b) ≡ false
done-inactive now t b = ground arith

failed-inactive :
    (e : Message) (now t : ℕ) (b : Batch) → is_active_of t (failed_batch e now b) ≡ false
failed-inactive e now t b = ground arith

settle-IsBounded :
    (r : Runner) (turn : Turn) (b : Batch) (x : Option Message × Db)
    → IsBounded x.1
    → IsBounded (settle r turn b x)
unfolding mark_failed mark_done mark_breakdown_batch_done mark_breakdown_batch_failed
settle-IsBounded r turn b (none, db) h = elim (Bool-cases turn.mark_fails) [
  | inl e ↦ rw e h
  | inr e ↦ rw e (
      marked-AreBounded b.id r.name (done_batch turn.db) db (λ k. (refl, refl, refl, refl))
        (done-inactive turn.db) h)
]
settle-IsBounded r turn b (some m, db) h = elim (Bool-cases turn.mark_fails) [
  | inl e ↦ rw e h
  | inr e ↦ rw e (
      marked-AreBounded b.id r.name (failed_batch m turn.db) db (λ k. (refl, refl, refl, refl))
        (failed-inactive m turn.db) h)
]

queue-IsBounded : (db u : Db) → queue u ≡ queue db → IsBounded db → IsBounded u
queue-IsBounded db u e h = subst (λ (q : ℕ × List Batch). AreBounded q.0 q.1) (sym e) h

work-IsBounded :
    (r : Runner) (turn : Turn) (b : Batch) (batch : List SentenceRow) (db : Db)
    → IsBounded db
    → IsBounded (work r turn b batch db)
unfolding work
work-IsBounded r turn b [] db h = settle-IsBounded r turn b (some empty_batch, db) h
work-IsBounded r turn b (s ∷ ss) db h =
    let x = process r turn b.transcription_id b.target_lang (s ∷ ss) db in
    settle-IsBounded r turn b x
      (queue-IsBounded db x.1 (process-queue r turn b.transcription_id b.target_lang (s ∷ ss) db) h)

-- A claimed batch was unfinished before.
claimed-active :
    (t now until : ℕ) (name : String) (locked : ℕ → Bool) (b : Batch)
    → is_claimable_batch now locked b ≡ true
    → is_active_of t (claimed_batch name until now b) ≡ true
    → is_active_of t b ≡ true
unfolding is_claimable_batch
claimed-active t now until name locked b c a = ground arith

pub if-IsBounded {ℓ} :
    {A : Type ℓ} (b : Bool) (x y : A × Db)
    → IsBounded x.1
    → IsBounded y.1
    → IsBounded (if b then x else y).1
if-IsBounded true x y h k = h
if-IsBounded false x y h k = k

after_claim-IsBounded :
    (r : Runner) (turn : Turn) (b : Batch) (t db : Db)
    → IsBounded t
    → IsBounded (after_claim r turn (some (b, t)) db).1
unfolding after_claim
after_claim-IsBounded r turn b t db h =
    if-IsBounded turn.load_fails ((true, false), t) _ h
      (work-IsBounded r turn b (batch_content b.transcription_id b.batch_start_seq t) t h)

claim-IsBounded :
    (r : Runner) (turn : Turn) (until : ℕ) (db : Db)
    → IsBounded db
    → IsBounded
        (after_claim r turn (claim_breakdown_batch r.name until turn.db turn.locked db) db).1
unfolding claim_breakdown_batch after_claim
claim-IsBounded r turn until db h =
    go (oldest Batch.created_at (is_claimable_batch turn.db turn.locked) db.batches)
      (oldest-IsOldest Batch.created_at (is_claimable_batch turn.db turn.locked) db.batches)
  where
    go :
        (o : Option Batch)
        → IsOldest Batch.created_at (is_claimable_batch turn.db turn.locked) db.batches o
        → IsBounded
            (after_claim r turn
              (elim o [
                | none ↦ none
                | some b ↦ some (
                  b,
                  set_batches db (
                      update_where
                        (has_batch_id b.id)
                        (claimed_batch r.name until turn.db)
                        db.batches),
                )
              ])
              db).1
    go none old = h
    go (some b) (m, c, least) = after_claim-IsBounded r turn b _ db (
        update_where-AreBounded (has_batch_id b.id) (claimed_batch r.name until turn.db)
          db.next_batch db.batches (λ k. (refl, refl, refl, refl))
          (λ t k n e a.
            claimed-active t turn.db until r.name turn.locked k
              (subst (λ x. is_claimable_batch turn.db turn.locked x ≡ true)
                (sym (In-AreDistinct db.next_batch b k db.batches (h.0) m n (ground arith))) c)
              a)
          h)

pub try_batch-IsBounded :
    (available : TokenUsage → Bool) (r : Runner) (turn : Turn) (db : Db)
    → IsBounded db
    → IsBounded (try_batch available r turn db).1
unfolding try_batch
try_batch-IsBounded available r turn db h =
    if-IsBounded turn.quota_fails ((false, false), db) _ h
      (if-IsBounded (not (available (get_llm_quota (quota_day turn.app) db))) ((false, true), db) _
        h
        (if-IsBounded turn.claim_fails ((false, false), db) _ h
          (claim-IsBounded r turn (turn.app + lock_period) db h)))
