-- ===== src/Breakdowns/Enqueued.antt =====
-- What EnqueueBreakdownBatch leaves: a batch of the key that has not failed.
use Prim.Native.String.{String}
use text.Mathlib.TextEquality.{eq_iff}
use qarau.Common.{
  ℕ, ◌≡◌, refl, subst, Bool, true, false, some, List, [], ◌∷◌, inl, inr, Bool-cases, arith,
}
use qarau.Common.Int.{ℤ}
use qarau.Common.Result.{ok}
use qarau.Common.Tables.{find, update_where}
use qarau.Store.{exists}
use qarau.Breakdowns.{Batch, Db}
use qarau.Breakdowns.Batches.{
  new_batch, has_batch_key, retried, is_failed_batch, get_breakdown_batch, enqueue_breakdown_batch,
}

exists-find :
    (p : Batch → Bool) (bs : List Batch) → exists p bs ≡ true → (b : Batch) × (find p bs ≡ some b)
unfolding exists find
exists-find p [] e = absurd (ground arith)
exists-find p (b ∷ bs) e = elim (Bool-cases (p b)) [
  | inl t ↦ (b, rw t refl)
  | inr t ↦ let (c, q) = exists-find p bs (ground arith) in (c, rw t q)
]

find-update_where :
    (p : Batch → Bool) (f : Batch → Batch) (bs : List Batch) (b : Batch)
    → ((c : Batch) → p (f c) ≡ p c)
    → find p bs ≡ some b
    → find p (update_where p f bs) ≡ some (f b)
unfolding find update_where
find-update_where p f [] b keeps e = cc
find-update_where p f (c ∷ cs) b keeps e = elim (Bool-cases (p c)) [
  | inl t ↦ ground (arith, keeps c)
  | inr t ↦ ground (arith, find-update_where p f cs b keeps)
]

retried-key :
    (t : ℕ) (start : ℤ) (lang : String) (b : Batch)
    → has_batch_key t start lang (retried b) ≡ has_batch_key t start lang b
retried-key t start lang b = elim (Bool-cases (is_failed_batch b.state)) [
  | inl e ↦ ground arith
  | inr e ↦ ground arith
]

retried-not_failed : (b : Batch) → is_failed_batch (retried b).state ≡ false
retried-not_failed b = elim (Bool-cases (is_failed_batch b.state)) [
  | inl e ↦ ground arith
  | inr e ↦ ground arith
]

-- A batch of the key is there, and has not failed.
abbrev pub HasBatch : ℕ → ℤ → String → Db → Type 0
HasBatch t start lang db =
    (b : Batch) × (get_breakdown_batch t start lang db ≡ some b) × (is_failed_batch b.state ≡ false)

own_batch_key :
    (id t : ℕ) (start : ℤ) (lang : String) (now : ℕ)
    → has_batch_key t start lang (new_batch id t start lang now) ≡ true
own_batch_key id t start lang now = ground (arith, eq_iff lang lang)

pub enqueue_breakdown_batch-HasBatch :
    (t : ℕ) (start : ℤ) (lang : String) (now : ℕ) (db u : Db)
    → enqueue_breakdown_batch t start lang now db ≡ ok u
    → HasBatch t start lang u
unfolding enqueue_breakdown_batch get_breakdown_batch find
enqueue_breakdown_batch-HasBatch t start lang now db u e =
    elim (Bool-cases (exists (has_batch_key t start lang) db.batches)) [
      | inl x ↦
          let (b, q) = exists-find (has_batch_key t start lang) db.batches x in
          let rows : update_where (has_batch_key t start lang) retried db.batches ≡ u.batches =
            ground (arith, x) in
          (
            retried b,
            subst (λ bs. find (has_batch_key t start lang) bs ≡ some (retried b)) rows
                (find-update_where (has_batch_key t start lang) retried db.batches b
                  (retried-key t start lang) q),
            retried-not_failed b,
          )
      | inr x ↦
          let rows : new_batch db.next_batch t start lang now ∷ db.batches ≡ u.batches =
            ground (arith, x) in
          (
            new_batch db.next_batch t start lang now,
            subst
                (λ bs.
                  find (has_batch_key t start lang) bs
                  ≡ some (new_batch db.next_batch t start lang now))
                rows (rw (own_batch_key db.next_batch t start lang now) refl),
            refl,
          )
    ]
