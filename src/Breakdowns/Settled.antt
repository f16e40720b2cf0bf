-- ===== src/Breakdowns/Settled.antt =====
-- A round of the runner without a failing statement takes one batch, if any may be taken, and
-- leaves it done or failed; no other batch changes.
use Prim.Native.String.{String}
use text.Mathlib.TextEquality.{eq_iff}
use qarau.Common.{
  ◌∙◌, ap, ◌<◌, ◌≤◌, sym, subst, ◌==◌, if◌then◌else◌, ℕ, ◌≡◌, refl, Bool, true, false, List, [],
  ◌∷◌, inl, inr, ◌⊎◌, Bool-cases, arith,
}
use qarau.Common.Tables.{In, update_where, touched}
use qarau.Breakdowns.{
  count_where, Batch, BatchState, batch_pending, batch_running, batch_done, batch_failed,
}
use qarau.Breakdowns.Batches.{
  is_batch_lease, has_batch_id, claimed_batch, is_running_batch, is_pending_batch,
}

-- A settled batch is done or has failed.
abbrev pub IsSettled : BatchState → Type 0
IsSettled batch_done = Unit {0}
IsSettled batch_failed = Unit {0}
IsSettled _ = ⊥

-- An end of a batch: what markDone and markFailed set.
pub record IsEnd (f : Batch → Batch) : Type 0 where
  pub settles : (b : Batch) → IsSettled (f b).state
  pub keeps : (b : Batch) → (f b).id ≡ b.id

-- A row before and after a round: as it was, or settled.
abbrev pub Round : Batch → Batch → Type 0
Round b c = (c.id ≡ b.id) × ((c ≡ b) ⊎ IsSettled c.state)

abbrev pub Rounds : List Batch → List Batch → Type 0
Rounds [] [] = Unit {0}
Rounds (b ∷ bs) (c ∷ cs) = Round b c × Rounds bs cs
Rounds _ _ = ⊥

abbrev pub is_active : Batch → Bool
is_active b = if is_pending_batch b.state then true else is_running_batch b.state

module _ (id : ℕ) (name : String) (until now : ℕ) (f : Batch → Batch) (h : IsEnd f) where
  -- The claim, and the end of the claimed batch.
  abbrev pub claim_row : Batch → Batch
  claim_row = touched (has_batch_id id) (claimed_batch name until now)

  abbrev pub end_row : Batch → Batch
  end_row b = touched (is_batch_lease id name) f (claim_row b)

  end_row-hit : (b : Batch) → b.id ≡ id → end_row b ≡ f (claimed_batch name until now b)
  end_row-hit b e = ground (arith, eq_iff name name)

  end_row-miss : (b : Batch) → (b.id == id) ≡ false → end_row b ≡ b
  end_row-miss b e = ground arith

  end_row-Round : (b : Batch) → Round b (end_row b)
  end_row-Round b = elim (Bool-cases (b.id == id)) [
    | inl e ↦
        rw (end_row-hit b (ground arith)) (
          h.keeps (claimed_batch name until now b),
          inr (h.settles (claimed_batch name until now b)),
        )
    | inr e ↦ rw (end_row-miss b e) (refl, inl refl)
  ]

  abbrev pub ended : List Batch → List Batch
  ended bs =
      update_where (is_batch_lease id name) f
        (update_where (has_batch_id id) (claimed_batch name until now) bs)

  pub ended-Rounds : (bs : List Batch) → Rounds bs (ended bs)
  unfolding update_where
  ended-Rounds [] = tt
  ended-Rounds (b ∷ bs) = (end_row-Round b, ended-Rounds bs)

  settled-inactive : (b : Batch) → IsSettled b.state → is_active b ≡ false
  settled-inactive b s = go b.state refl s
    where
      go : (st : BatchState) → b.state ≡ st → IsSettled st → is_active b ≡ false
      go batch_done e t = rw e refl
      go batch_failed e t = rw e refl
      go batch_pending e t = absurd t
      go batch_running e t = absurd t

  end_row-inactive : (b : Batch) → b.id ≡ id → is_active (end_row b) ≡ false
  end_row-inactive b e = settled-inactive (end_row b) (
      subst (λ c. IsSettled c.state) (sym (end_row-hit b e))
        (h.settles (claimed_batch name until now b)))

  ended-count-le : (bs : List Batch) → count_where is_active (ended bs) ≤ count_where is_active bs
  unfolding update_where count_where
  ended-count-le [] = omega arith
  ended-count-le (b ∷ bs) = elim (Bool-cases (b.id == id)) [
    | inl e ↦ rw (end_row-inactive b (ground arith)) (ground (arith, ended-count-le bs))
    | inr e ↦ rw (end_row-miss b e) (ground (arith, ended-count-le bs))
  ]

  -- The claimed batch was active, and is not any more.
  pub ended-count-lt :
      (b : Batch) (bs : List Batch)
      → In b bs
      → is_active b ≡ true
      → b.id ≡ id
      → count_where is_active (ended bs) < count_where is_active bs
  unfolding update_where count_where
  ended-count-lt b [] m a e = absurd m
  ended-count-lt b (c ∷ cs) (inl q) a e =
      rw (end_row-inactive c (ap Batch.id (sym q) ∙ e), ap is_active (sym q) ∙ a)
        (ground (arith, ended-count-le cs))
  ended-count-lt b (c ∷ cs) (inr m) a e = elim (Bool-cases (c.id == id)) [
    | inl t ↦ rw (end_row-inactive c (ground arith)) (ground (arith, ended-count-lt b cs m a e))
    | inr t ↦ rw (end_row-miss c t) (ground (arith, ended-count-lt b cs m a e))
  ]
