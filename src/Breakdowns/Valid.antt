-- ===== src/Breakdowns/Valid.antt =====
-- The rows of `breakdown_batches` have distinct ids and keys, and how an update changes the number
-- of rows that meet a test.
use Prim.Native.String.{String}
use text.Mathlib.TextEquality.{eq_iff}
use qarau.Common.{
  ℕ, suc, ◌≤◌, ◌<◌, ◌≡◌, ◌≢◌, refl, sym, ap, ◌∙◌, Bool, true, false, List, [], ◌∷◌, inl, inr,
  Bool-cases, arith,
}
use qarau.Common.Int.{ℤ, pos, negsuc}
use qarau.Common.Tables.{In, update_where, touched}
use qarau.Store.{exists}
use qarau.Breakdowns.{Batch, count_where, eq_ℤ}
use qarau.Breakdowns.Batches.{has_batch_key}

-- No row of the list has the id or the key of the batch.
abbrev pub IsNewBatch : Batch → List Batch → Type 0
IsNewBatch b [] = Unit {0}
IsNewBatch b (k ∷ ks) =
    (k.id ≢ b.id)
    × (has_batch_key b.transcription_id b.batch_start_seq b.target_lang k ≡ false)
    × IsNewBatch b ks

abbrev pub AreDistinct : ℕ → List Batch → Type 0
AreDistinct next [] = Unit {0}
AreDistinct next (b ∷ bs) = (b.id < next) × IsNewBatch b bs × AreDistinct next bs

-- What no statement writes.
abbrev pub SameBatch : Batch → Batch → Type 0
SameBatch b c =
    (c.id ≡ b.id)
    × (c.transcription_id ≡ b.transcription_id)
    × (c.batch_start_seq ≡ b.batch_start_seq)
    × (c.target_lang ≡ b.target_lang)

touched-SameBatch :
    (p : Batch → Bool) (f : Batch → Batch) (b : Batch)
    → SameBatch b (f b)
    → SameBatch b (touched p f b)
touched-SameBatch p f b h = elim (Bool-cases (p b)) [
  | inl e ↦ rw e h
  | inr e ↦ rw e (refl, refl, refl, refl)
]

IsNewBatch-SameBatch :
    (b c : Batch) (bs : List Batch) → SameBatch b c → IsNewBatch b bs → IsNewBatch c bs
IsNewBatch-SameBatch b c [] same new = tt
IsNewBatch-SameBatch b c (k ∷ ks) (i, t, s, l) (x, y, z) =
    (λ e. x (e ∙ i), rw (t, s, l) y, IsNewBatch-SameBatch b c ks (i, t, s, l) z)

IsNewBatch-update_where :
    (p : Batch → Bool) (f : Batch → Batch) (b : Batch) (bs : List Batch)
    → ((k : Batch) → SameBatch k (f k))
    → IsNewBatch b bs
    → IsNewBatch b (update_where p f bs)
unfolding update_where
IsNewBatch-update_where p f b [] keeps new = tt
IsNewBatch-update_where p f b (k ∷ ks) keeps (x, y, z) =
    let (i, t, s, l) = touched-SameBatch p f k (keeps k) in
    (λ e. x (sym i ∙ e), rw (t, s, l) y, IsNewBatch-update_where p f b ks keeps z)

pub update_where-AreDistinct :
    (p : Batch → Bool) (f : Batch → Batch) (next : ℕ) (bs : List Batch)
    → ((k : Batch) → SameBatch k (f k))
    → AreDistinct next bs
    → AreDistinct next (update_where p f bs)
unfolding update_where
update_where-AreDistinct p f next [] keeps v = tt
update_where-AreDistinct p f next (b ∷ bs) keeps (lt, new, v) =
    let same = touched-SameBatch p f b (keeps b) in
    (
      rw (same.0) lt,
      IsNewBatch-SameBatch b (touched p f b) _ same (IsNewBatch-update_where p f b bs keeps new),
      update_where-AreDistinct p f next bs keeps v,
    )

In-IsNewBatch : (b k : Batch) (bs : List Batch) → In k bs → IsNewBatch b bs → k.id ≢ b.id
In-IsNewBatch b k [] m new = absurd m
In-IsNewBatch b k (c ∷ cs) (inl q) (x, y, z) = λ e. x (ap Batch.id (sym q) ∙ e)
In-IsNewBatch b k (c ∷ cs) (inr m) (x, y, z) = In-IsNewBatch b k cs m z

-- An id names one row.
pub In-AreDistinct :
    (next : ℕ) (b c : Batch) (bs : List Batch)
    → AreDistinct next bs
    → In b bs
    → In c bs
    → c.id ≡ b.id
    → c ≡ b
In-AreDistinct next b c [] v m n e = absurd m
In-AreDistinct next b c (d ∷ ds) v (inl p) (inl q) e = q ∙ sym p
In-AreDistinct next b c (d ∷ ds) v (inl p) (inr n) e =
    absurd (In-IsNewBatch d c ds n v.1 (e ∙ ap Batch.id p))
In-AreDistinct next b c (d ∷ ds) v (inr m) (inl q) e =
    absurd (In-IsNewBatch d b ds m v.1 (sym e ∙ ap Batch.id q))
In-AreDistinct next b c (d ∷ ds) v (inr m) (inr n) e = In-AreDistinct next b c ds v.2 m n e

pub eq_ℤ-path : (a b : ℤ) → eq_ℤ a b ≡ true → a ≡ b
eq_ℤ-path (pos n) (pos m) e = ap pos (ground arith)
eq_ℤ-path (pos n) (negsuc m) e = absurd (ground arith)
eq_ℤ-path (negsuc n) (pos m) e = absurd (ground arith)
eq_ℤ-path (negsuc n) (negsuc m) e = ap negsuc (ground arith)

pub key-parts :
    (t : ℕ) (start : ℤ) (lang : String) (b : Batch)
    → has_batch_key t start lang b ≡ true
    → (b.transcription_id ≡ t) × (b.batch_start_seq ≡ start) × (b.target_lang ≡ lang)
key-parts t start lang b h = (
  ground arith,
  eq_ℤ-path b.batch_start_seq start (ground arith),
  ground (arith, eq_iff b.target_lang lang),
)

-- A key names one row: after it, none.
pub own_key-exists :
    (t : ℕ) (start : ℤ) (lang : String) (b : Batch) (bs : List Batch)
    → has_batch_key t start lang b ≡ true
    → IsNewBatch b bs
    → exists (has_batch_key t start lang) bs ≡ false
unfolding exists
own_key-exists t start lang b [] h new = refl
own_key-exists t start lang b (k ∷ ks) h (x, y, z) =
    let (d, e, g) = key-parts t start lang b h in
    let same : has_batch_key t start lang k ≡ false = rw (sym d, sym e, sym g) y in
    rw same (own_key-exists t start lang b ks h z)

module _ (q p : Batch → Bool) (f : Batch → Batch) where
  pub count_where-update-le :
      (bs : List Batch)
      → ((b : Batch) → In b bs → p b ≡ true → q (f b) ≡ true → q b ≡ true)
      → count_where q (update_where p f bs) ≤ count_where q bs
  unfolding count_where update_where
  count_where-update-le [] h = omega arith
  count_where-update-le (b ∷ bs) h =
      ground (arith, h b (inl refl), count_where-update-le bs (λ c m. h c (inr m)))

  update_where-none : (bs : List Batch) → exists p bs ≡ false → update_where p f bs ≡ bs
  unfolding update_where exists
  update_where-none [] h = refl
  update_where-none (b ∷ bs) h = ground (arith, update_where-none bs)

  count_where-le-suc :
      (x b : Batch) (bs : List Batch) → count_where q (x ∷ bs) ≤ suc (count_where q (b ∷ bs))
  unfolding count_where
  count_where-le-suc x b bs = ground arith

pub count_where-update-suc :
    (q : Batch → Bool) (t : ℕ) (start : ℤ) (lang : String) (f : Batch → Batch) (next : ℕ)
    (bs : List Batch)
    → AreDistinct next bs
    → count_where q (update_where (has_batch_key t start lang) f bs) ≤ suc (count_where q bs)
unfolding count_where update_where
count_where-update-suc q t start lang f next [] v = omega arith
count_where-update-suc q t start lang f next (b ∷ bs) (lt, new, v) =
    elim (Bool-cases (has_batch_key t start lang b)) [
      | inl e ↦
          rw
            (
              e,
              update_where-none q (has_batch_key t start lang) f bs
                  (own_key-exists t start lang b bs e new),
            )
            (count_where-le-suc q q f (f b) b bs)
      | inr e ↦ rw e (ground (arith, count_where-update-suc q t start lang f next bs v))
    ]
