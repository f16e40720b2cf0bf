-- ===== src/Breakdowns/Emptied.antt =====
-- The runner empties the queue: as many rounds without a failing statement as there are unfinished
-- batches settle every batch that was pending.
use mathlib.Core.Bool.{false≢true}
use qarau.Service.{quota_day}
use qarau.Breakdowns.Batches.{
  is_pending_batch, claimed_batch, has_batch_id, set_batches, is_claimable_batch,
  claim_breakdown_batch,
}
use qarau.Common.{
  if-false, ℕ, suc, ◌+◌, ◌≤◌, ◌≡◌, refl, sym, ap, ◌∙◌, subst, Bool, true, false, Option, none, some,
  List, [], ◌∷◌, inl, inr, ◌⊎◌, arith, length,
}
use qarau.Common.Tables.{update_where, In, oldest, oldest-IsOldest, IsOldest}
use qarau.Breakdowns.{
  batch_content, get_llm_quota, Batch, BatchState, batch_pending, batch_running, batch_done,
  batch_failed, TokenUsage, Db, count_where,
}
use qarau.Breakdowns.Runner.{work, lock_period, after_claim, Turn, Runner, try_batch, loop}
use qarau.Breakdowns.Settled.{is_active, Rounds, Round, IsSettled}
use qarau.Breakdowns.Drained.{
  claimable-active, work-Advances, pending-claimable, Advances, NoPending, IsSound,
}

try_batch-after_claim :
    (available : TokenUsage → Bool) (r : Runner) (turn : Turn) (db : Db)
    → available (get_llm_quota (quota_day turn.app) db) ≡ true
    → IsSound turn
    → try_batch available r turn db
      ≡ after_claim r turn
          (claim_breakdown_batch r.name (turn.app + lock_period) turn.db turn.locked db)
          db
unfolding try_batch
try_batch-after_claim available r turn db a h = rw (h.quota, try_batch) (rw a (rw h.claim refl))

try_batch-Advances :
    (available : TokenUsage → Bool) (r : Runner) (turn : Turn) (db : Db)
    → available (get_llm_quota (quota_day turn.app) db) ≡ true
    → IsSound turn
    → Advances db (try_batch available r turn db).1
unfolding claim_breakdown_batch after_claim
try_batch-Advances available r turn db a h = rw (try_batch-after_claim available r turn db a h) (
    go (oldest Batch.created_at (is_claimable_batch turn.db turn.locked) db.batches)
      (oldest-IsOldest Batch.created_at (is_claimable_batch turn.db turn.locked) db.batches))
  where
    claimed-work :
        (b : Batch) (t : Db)
        → (after_claim r turn (some (b, t)) db).1
          ≡ work r turn b (batch_content b.transcription_id b.batch_start_seq t) t
    claimed-work b t = ap (λ (x : (Bool × Bool) × Db). x.1) (if-false turn.load_fails _ _ h.load)

    go :
        (o : Option Batch)
        → IsOldest Batch.created_at (is_claimable_batch turn.db turn.locked) db.batches o
        → Advances db
            (after_claim r turn
              (elim o [
                | none ↦ none
                | some b ↦ some (
                  b,
                  set_batches db (
                      update_where
                        (has_batch_id b.id)
                        (claimed_batch r.name (turn.app + lock_period) turn.db)
                        db.batches),
                )
              ])
              db).1
    go none old = inl (refl, λ b m. pending-claimable turn b h (old b m))
    go (some b) (m, c, least) = subst (Advances db) (sym (claimed-work b _)) (
        work-Advances r turn b (turn.app + lock_period) db _ h m
          (claimable-active turn.db turn.locked b c))

Round-trans : (a b c : Batch) → Round a b → Round b c → Round a c
Round-trans a b c (e, inl p) (f, inl q) = (f ∙ e, inl (q ∙ p))
Round-trans a b c (e, inr s) (f, inl q) =
    (f ∙ e, inr (subst (λ x. IsSettled (Batch.state x)) (sym q) s))
Round-trans a b c (e, x) (f, inr s) = (f ∙ e, inr s)

Rounds-refl : (bs : List Batch) → Rounds bs bs
Rounds-refl [] = tt
Rounds-refl (b ∷ bs) = ((refl, inl refl), Rounds-refl bs)

Rounds-trans : (xs ys zs : List Batch) → Rounds xs ys → Rounds ys zs → Rounds xs zs
Rounds-trans [] [] [] x y = tt
Rounds-trans [] [] (c ∷ zs) x y = absurd y
Rounds-trans [] (b ∷ ys) zs x y = absurd x
Rounds-trans (a ∷ xs) [] zs x y = absurd x
Rounds-trans (a ∷ xs) (b ∷ ys) [] x y = absurd y
Rounds-trans (a ∷ xs) (b ∷ ys) (c ∷ zs) (x, h) (y, k) =
    (Round-trans a b c x y, Rounds-trans xs ys zs h k)

settled-not_pending : (st : BatchState) → IsSettled st → is_pending_batch st ≡ false
settled-not_pending batch_done s = refl
settled-not_pending batch_failed s = refl
settled-not_pending batch_pending s = absurd s
settled-not_pending batch_running s = absurd s

Round-not_pending :
    (b c : Batch)
    → (c ≡ b) ⊎ IsSettled c.state
    → is_pending_batch b.state ≡ false
    → is_pending_batch c.state ≡ false
Round-not_pending b c (inl q) h = ap (λ k. is_pending_batch (Batch.state k)) q ∙ h
Round-not_pending b c (inr s) h = settled-not_pending c.state s

-- A round makes no batch pending.
Rounds-NoPending : (bs cs : List Batch) → Rounds bs cs → NoPending bs → NoPending cs
Rounds-NoPending [] [] r h = h
Rounds-NoPending [] (c ∷ cs) r h = absurd r
Rounds-NoPending (b ∷ bs) [] r h = absurd r
Rounds-NoPending (b ∷ bs) (c ∷ cs) ((e, x), r) h = λ d. elim [
  | inl q ↦ rw q (Round-not_pending b c x (h b (inl refl)))
  | inr m ↦ Rounds-NoPending bs cs r (λ k l. h k (inr l)) d m
]

-- Every round is sound.
abbrev pub AllSound : List Turn → Type 0
AllSound [] = Unit {0}
AllSound (t ∷ ts) = IsSound t × AllSound ts

no_active-NoPending : (bs : List Batch) → count_where is_active bs ≤ 0 → NoPending bs
unfolding count_where
no_active-NoPending [] h b m = absurd m
no_active-NoPending (c ∷ cs) h b (inl q) = rw q (ground arith)
no_active-NoPending (c ∷ cs) h b (inr m) = no_active-NoPending cs (ground arith) b m

-- What a round leaves to the rounds after it.
Advances-rest :
    (n : ℕ) (db t : Db)
    → Advances db t
    → (count_where is_active db.batches ≤ suc n) ⊎ NoPending db.batches
    → Rounds db.batches t.batches × ((count_where is_active t.batches ≤ n) ⊎ NoPending t.batches)
Advances-rest n db t (inl (e, none_left)) few =
    (rw e (Rounds-refl db.batches), inr (rw e none_left))
Advances-rest n db t (inr (r, lt)) (inl le) = (r, inl (omega arith))
Advances-rest n db t (inr (r, lt)) (inr none_left) =
    (r, inr (Rounds-NoPending db.batches t.batches r none_left))

-- In each round, the quota of its day allows what was used before it.
abbrev pub AllAvailable : (TokenUsage → Bool) → Runner → List Turn → Db → Type 0
AllAvailable available r [] db = Unit {0}
AllAvailable available r (t ∷ ts) db =
    (available (get_llm_quota (quota_day t.app) db) ≡ true)
    × AllAvailable available r ts (try_batch available r t db).1

loop-NoPending :
    (available : TokenUsage → Bool) (r : Runner) (turns : List Turn) (db : Db)
    → AllAvailable available r turns db
    → AllSound turns
    → (count_where is_active db.batches ≤ length turns) ⊎ NoPending db.batches
    → Rounds db.batches (loop available r turns db).1.batches
      × NoPending (loop available r turns db).1.batches
unfolding loop
loop-NoPending available r [] db a h (inl few) =
    (Rounds-refl db.batches, no_active-NoPending db.batches few)
loop-NoPending available r [] db a h (inr none_left) = (Rounds-refl db.batches, none_left)
loop-NoPending available r (turn ∷ turns) db (a, later) (s, ss) few =
    let t = (try_batch available r turn db).1 in
    let (one, rest) =
      Advances-rest (length turns) db t (try_batch-Advances available r turn db a s) few in
    let (more, stop) = loop-NoPending available r turns t later ss rest in
    (Rounds-trans db.batches t.batches _ one more, stop)

Rounds-In :
    (b : Batch) (bs cs : List Batch) → In b bs → Rounds bs cs → (c : Batch) × In c cs × Round b c
Rounds-In b [] cs m r = absurd m
Rounds-In b (d ∷ bs) [] m r = absurd r
Rounds-In b (d ∷ bs) (c ∷ cs) (inl q) (x, r) = (c, inl refl, subst (λ e. Round e c) (sym q) x)
Rounds-In b (d ∷ bs) (c ∷ cs) (inr m) (x, r) =
    let (e, n, y) = Rounds-In b bs cs m r in (e, inr n, y)

-- As many rounds of the runner as there are pending or running batches, in each of which the quota
-- allows the usage that its day has when it starts, no statement on the tables fails and no row is
-- locked by another transaction, leave each batch that was pending done or failed, whatever the
-- language model answers.
pub loop-drains :
    (available : TokenUsage → Bool) (r : Runner) (turns : List Turn) (db : Db) (b : Batch)
    → AllAvailable available r turns db
    → AllSound turns
    → count_where is_active db.batches ≤ length turns
    → In b db.batches
    → is_pending_batch b.state ≡ true
    → (c : Batch) × In c (loop available r turns db).1.batches × (c.id ≡ b.id) × IsSettled c.state
loop-drains available r turns db b a h few m pending =
    let (rounds, stop) = loop-NoPending available r turns db a h (inl few) in
    let (c, n, (same, x)) = Rounds-In b db.batches _ m rounds in
    (
      c,
      n,
      same,
      elim x [
        | inl q ↦
            absurd
              (false≢true (sym (stop c n) ∙ ap (λ k. is_pending_batch (Batch.state k)) q ∙ pending))
        | inr s ↦ s
      ],
    )
