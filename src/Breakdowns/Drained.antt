-- ===== src/Breakdowns/Drained.antt =====
-- A round of the runner in which no statement fails: it settles the batch that it takes, and none
-- is pending where it takes none.
use qarau.Breakdowns.Kept.{process-queue}
use Prim.Native.String.{String}
use text.Mathlib.TextEquality.{eq_iff}
use qarau.Common.{
  ℕ, ◌<◌, ◌≡◌, refl, sym, ap, ◌∙◌, subst, Bool, true, false, Option, none, some, List, [], ◌∷◌, inr,
  ◌⊎◌, arith,
}
use qarau.Common.Tables.{In, update_where, update_returning, find-some, update_where-In}
use qarau.Store.{SentenceRow}
use qarau.Breakdowns.{Batch, Message, Db, count_where, empty_batch}
use qarau.Breakdowns.Batches.{
  set_batches, is_claimable_batch, mark_breakdown_batch_failed, mark_breakdown_batch_done,
  is_batch_lease, has_batch_id, claimed_batch, is_pending_batch, done_batch, failed_batch,
}
use qarau.Breakdowns.Runner.{settle, mark_done, work, mark_failed, marked, process, Turn, Runner}
use qarau.Breakdowns.Settled.{ended-count-lt, ended-Rounds, IsEnd, is_active, Rounds}

done_batch-IsEnd : (now : ℕ) → IsEnd (done_batch now)
done_batch-IsEnd now = record { settles = λ b. tt; keeps = λ b. refl }

failed_batch-IsEnd : (e : Message) (now : ℕ) → IsEnd (failed_batch e now)
failed_batch-IsEnd e now = record { settles = λ b. tt; keeps = λ b. refl }

-- What the end of a batch does to the table, where its row is leased.
abbrev pub Ends : ℕ → String → Db → Db → Type 0
Ends id name db u =
    (f : Batch → Batch) × IsEnd f × (u.batches ≡ update_where (is_batch_lease id name) f db.batches)

abbrev pub HasLease : ℕ → String → Db → Type 0
HasLease id name db = (c : Batch) × In c db.batches × (is_batch_lease id name c ≡ true)

marked-Ends :
    (id : ℕ) (name : String) (f : Batch → Batch) (db : Db)
    → IsEnd f
    → HasLease id name db
    → Ends id name db (marked db (update_returning (is_batch_lease id name) f db.batches))
unfolding update_returning
marked-Ends id name f db h (c, m, e) =
    let (y, q) = find-some (is_batch_lease id name) db.batches c m e in (f, h, rw (q, marked) refl)

settle-Ends :
    (r : Runner) (turn : Turn) (b : Batch) (x : Option Message × Db)
    → turn.mark_fails ≡ false
    → HasLease b.id r.name x.1
    → Ends b.id r.name x.1 (settle r turn b x)
unfolding mark_failed mark_done mark_breakdown_batch_done mark_breakdown_batch_failed
settle-Ends r turn b (none, db) e h =
    rw e (marked-Ends b.id r.name (done_batch turn.db) db (done_batch-IsEnd turn.db) h)
settle-Ends r turn b (some m, db) e h =
    rw e (marked-Ends b.id r.name (failed_batch m turn.db) db (failed_batch-IsEnd m turn.db) h)

work-Ends :
    (r : Runner) (turn : Turn) (b : Batch) (batch : List SentenceRow) (db : Db)
    → turn.mark_fails ≡ false
    → HasLease b.id r.name db
    → Ends b.id r.name db (work r turn b batch db)
unfolding work
work-Ends r turn b [] db e h = settle-Ends r turn b (some empty_batch, db) e h
work-Ends r turn b (s ∷ ss) db e h =
    let x = process r turn b.transcription_id b.target_lang (s ∷ ss) db in
    let same =
      ap (λ (q : ℕ × List Batch). q.1)
        (process-queue r turn b.transcription_id b.target_lang (s ∷ ss) db) in
    let (f, end, q) = settle-Ends r turn b x e (
      subst (λ (l : List Batch). (c : Batch) × In c l × (is_batch_lease b.id r.name c ≡ true))
        (sym same) h) in
    (f, end, q ∙ ap (update_where (is_batch_lease b.id r.name) f) same)

-- A round in which no statement fails and no row is locked by another transaction.
pub record IsSound (turn : Turn) : Type 0 where
  pub free : (i : ℕ) → turn.locked i ≡ false
  pub quota : turn.quota_fails ≡ false
  pub claim : turn.claim_fails ≡ false
  pub load : turn.load_fails ≡ false
  pub mark : turn.mark_fails ≡ false

abbrev pub NoPending : List Batch → Type 0
NoPending bs = (b : Batch) → In b bs → is_pending_batch b.state ≡ false

-- What a round comes to: no batch is pending and nothing changes, or one unfinished batch is
-- settled.
abbrev pub Advances : Db → Db → Type 0
Advances db u =
    ((u ≡ db) × NoPending db.batches)
    ⊎ (Rounds db.batches u.batches
        × (count_where is_active u.batches < count_where is_active db.batches))

pub pending-claimable :
    (turn : Turn) (b : Batch)
    → IsSound turn
    → is_claimable_batch turn.db turn.locked b ≡ false
    → is_pending_batch b.state ≡ false
unfolding is_claimable_batch
pending-claimable turn b h e = ground (arith, h.free b.id)

pub claimable-active :
    (now : ℕ) (locked : ℕ → Bool) (b : Batch)
    → is_claimable_batch now locked b ≡ true
    → is_active b ≡ true
unfolding is_claimable_batch
claimable-active now locked b e = ground arith

lease_of_claimed :
    (b : Batch) (name : String) (until now : ℕ)
    → is_batch_lease b.id name (claimed_batch name until now b) ≡ true
lease_of_claimed b name until now = ground (arith, eq_iff name name)

-- The claimed batch b, worked on to its end.
pub work-Advances :
    (r : Runner) (turn : Turn) (b : Batch) (until : ℕ) (db : Db) (batch : List SentenceRow)
    → IsSound turn
    → In b db.batches
    → is_active b ≡ true
    → let t =
        set_batches db
          (update_where (has_batch_id b.id) (claimed_batch r.name until turn.db) db.batches) in
      Advances db (work r turn b batch t)
work-Advances r turn b until db batch h m a =
    let t =
      set_batches db
        (update_where (has_batch_id b.id) (claimed_batch r.name until turn.db) db.batches) in
    let c = claimed_batch r.name until turn.db b in
    let l : HasLease b.id r.name t = (
      c,
      subst (λ x. In x t.batches) (ground arith)
          (update_where-In (has_batch_id b.id) (claimed_batch r.name until turn.db) b db.batches m),
      lease_of_claimed b r.name until turn.db,
    ) in
    let (f, end, q) = work-Ends r turn b batch t h.mark l in
    rw q (
      inr (
        ended-Rounds b.id r.name until turn.db f end db.batches,
        ended-count-lt b.id r.name until turn.db f end b db.batches m a refl,
      ))
