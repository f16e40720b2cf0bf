-- ===== src/Common/Sorted/Parts.antt =====
-- The parts of an ordered list that a bound or a page leaves.
use Prim.Native.Nat.{ℕ, zero, suc}
use mathlib.Core.Path.{subst, ◌≡◌, refl, sym, ap, ◌∙◌}
use mathlib.Core.Logic.{inl, inr}
use mathlib.Core.Bool.{Bool, true, false, ◌&&◌}
use mathlib.Core.List.{List, [], ◌∷◌}
use native.Mathlib.Omega.{arith}
use qarau.Common.Tests.{if◌then◌else◌, Bool-cases}
use qarau.Common.Lists.{take, drop}
use qarau.Common.Int.{◌≤ℤ◌, ℤ, leb_ℤ, ltb_ℤ, ◌<ℤ◌}
use qarau.Common.Sorted.{insert_by_seq, select_by_seq, IsAbove, IsIncreasing, IsRanged}

-- The rows that meet a test, in their order.
unfoldable pub keep {ℓ} : {A : Type ℓ} → (A → Bool) → List A → List A
keep p [] = []
keep p (x ∷ xs) = if p x then x ∷ keep p xs else keep p xs

abbrev pub max_ℤ : ℤ → ℤ → ℤ
max_ℤ a b = if ltb_ℤ a b then b else a

module _ {A : Type 0} (seq : A → ℤ) where
  -- The largest number of the rows and of `m`.
  unfoldable pub max_seq : ℤ → List A → ℤ
  max_seq m [] = m
  max_seq m (x ∷ xs) = max_seq (max_ℤ m (seq x)) xs

  keep-insert_in :
      (start : ℤ) (x : A) (ys : List A)
      → leb_ℤ start (seq x) ≡ true
      → keep (λ y. leb_ℤ start (seq y)) (insert_by_seq seq x ys)
        ≡ insert_by_seq seq x (keep (λ y. leb_ℤ start (seq y)) ys)
  unfolding keep insert_by_seq
  keep-insert_in start x [] h = rw h refl
  keep-insert_in start x (y ∷ ys) h = elim (Bool-cases (leb_ℤ (seq x) (seq y))) [
    | inl e ↦ elim (Bool-cases (leb_ℤ start (seq y))) [
      | inl f ↦ rw (e, h, f, e) refl
      | inr f ↦ absurd (ground arith)
    ]
    | inr e ↦ elim (Bool-cases (leb_ℤ start (seq y))) [
      | inl f ↦ rw (e, f, e) (ap (◌∷◌ y) (keep-insert_in start x ys h))
      | inr f ↦ rw (e, f) (keep-insert_in start x ys h)
    ]
  ]

  keep-insert_out :
      (start : ℤ) (x : A) (ys : List A)
      → leb_ℤ start (seq x) ≡ false
      → keep (λ y. leb_ℤ start (seq y)) (insert_by_seq seq x ys)
        ≡ keep (λ y. leb_ℤ start (seq y)) ys
  unfolding keep insert_by_seq
  keep-insert_out start x [] h = rw h refl
  keep-insert_out start x (y ∷ ys) h = elim (Bool-cases (leb_ℤ (seq x) (seq y))) [
    | inl e ↦ rw (e, h) refl
    | inr e ↦ elim (Bool-cases (leb_ℤ start (seq y))) [
      | inl f ↦ rw (e, f) (ap (◌∷◌ y) (keep-insert_out start x ys h))
      | inr f ↦ rw (e, f) (keep-insert_out start x ys h)
    ]
  ]

  -- A bound from below on the ordering column selects a part of the ordered rows.
  pub select_by_seq-from :
      (p : A → Bool) (start : ℤ) (xs : List A)
      → select_by_seq seq (λ x. p x && leb_ℤ start (seq x)) xs
        ≡ keep (λ x. leb_ℤ start (seq x)) (select_by_seq seq p xs)
  unfolding keep select_by_seq
  select_by_seq-from p start [] = refl
  select_by_seq-from p start (x ∷ xs) = elim (Bool-cases (p x)) [
    | inr e ↦ rw e (select_by_seq-from p start xs)
    | inl e ↦ elim (Bool-cases (leb_ℤ start (seq x))) [
      | inl f ↦
          rw (e, f)
            (ap (insert_by_seq seq x) (select_by_seq-from p start xs)
              ∙ sym (keep-insert_in start x (select_by_seq seq p xs) f))
      | inr f ↦
          rw (e, f)
            (select_by_seq-from p start xs
              ∙ sym (keep-insert_out start x (select_by_seq seq p xs) f))
    ]
  ]

  pub max_seq-bound : (m : ℤ) (xs : List A) → leb_ℤ m (max_seq m xs) ≡ true
  unfolding max_seq
  max_seq-bound m [] = ground arith
  max_seq-bound m (x ∷ xs) = elim (Bool-cases (ltb_ℤ m (seq x))) [
    | inl e ↦ rw e (let r = max_seq-bound (seq x) xs in ground arith)
    | inr e ↦ rw e (max_seq-bound m xs)
  ]

  keep-above : (m : ℤ) (xs : List A) → IsAbove seq m xs → keep (λ x. ltb_ℤ m (seq x)) xs ≡ xs
  unfolding keep
  keep-above m [] h = refl
  keep-above m (x ∷ xs) (lt, h) =
      let e : ltb_ℤ m (seq x) ≡ true = ground arith in rw e (ap (◌∷◌ x) (keep-above m xs h))

  -- The rows above the largest number of a page are those behind it.
  pub keep-page :
      (n : ℕ) (m : ℤ) (xs : List A)
      → IsAbove seq m xs
      → IsIncreasing seq xs
      → keep (λ x. ltb_ℤ (max_seq m (take n xs)) (seq x)) xs ≡ drop n xs
  unfolding max_seq keep
  keep-page zero m xs above inc = keep-above m xs above
  keep-page (suc n) m [] above inc = refl
  keep-page (suc n) m (x ∷ xs) (lt, above) (more, inc) =
      let e : ltb_ℤ m (seq x) ≡ true = ground arith in
      let r = max_seq-bound (seq x) (take n xs) in
      let f : ltb_ℤ (max_seq (seq x) (take n xs)) (seq x) ≡ false = ground arith in
      let q : max_seq (seq x) (take n xs) ≡ max_seq m (x ∷ take n xs) = rw (max_seq, e) refl in
      subst (λ k. keep (λ y. ltb_ℤ k (seq y)) (x ∷ xs) ≡ drop n xs) q
        (rw f (keep-page n (seq x) xs more inc))

  -- The largest number of rows in a range is in the range.
  pub max_seq-within :
      (low high m : ℤ) (n : ℕ) (xs : List A)
      → low ≤ℤ m
      → m <ℤ high
      → IsRanged seq low high xs
      → (low ≤ℤ max_seq m (take n xs)) × (max_seq m (take n xs) <ℤ high)
  unfolding max_seq
  max_seq-within low high m zero xs l u h = (l, u)
  max_seq-within low high m (suc n) [] l u h = (l, u)
  max_seq-within low high m (suc n) (x ∷ xs) l u ((a, b), h) = elim (Bool-cases (ltb_ℤ m (seq x))) [
    | inl e ↦ rw (max_seq, e) (max_seq-within low high (seq x) n xs a b h)
    | inr e ↦ rw (max_seq, e) (max_seq-within low high m n xs l u h)
  ]

pub keep-congr :
    {A : Type 0} (p q : A → Bool) (xs : List A) → ((x : A) → p x ≡ q x) → keep p xs ≡ keep q xs
unfolding keep
keep-congr p q [] h = refl
keep-congr p q (x ∷ xs) h = elim (Bool-cases (q x)) [
  | inl e ↦ rw (h x, e) (ap (◌∷◌ x) (keep-congr p q xs h))
  | inr e ↦ rw (h x, e) (keep-congr p q xs h)
]

-- A stronger test selects the same from what a weaker one leaves.
pub keep-keep :
    {A : Type 0} (p q : A → Bool) (xs : List A)
    → ((x : A) → q x ≡ true → p x ≡ true)
    → keep q (keep p xs) ≡ keep q xs
unfolding keep
keep-keep p q [] h = refl
keep-keep p q (x ∷ xs) h = elim (Bool-cases (q x)) [
  | inl e ↦ rw (h x e, e) (ap (◌∷◌ x) (keep-keep p q xs h))
  | inr e ↦ elim (Bool-cases (p x)) [
    | inl f ↦ rw (f, e) (keep-keep p q xs h)
    | inr f ↦ rw (f, e) (keep-keep p q xs h)
  ]
]

pub keep-IsRanged :
    {A : Type 0} (seq : A → ℤ) (low high : ℤ) (xs : List A)
    → IsRanged seq low high xs
    → keep (λ x. leb_ℤ low (seq x)) xs ≡ xs
unfolding keep
keep-IsRanged seq low high [] h = refl
keep-IsRanged seq low high (x ∷ xs) ((l, u), h) =
    let e : leb_ℤ low (seq x) ≡ true = ground arith in
    rw e (ap (◌∷◌ x) (keep-IsRanged seq low high xs h))

module _ {A : Type 0} (seq : A → ℤ) where
  pub IsRanged-keep :
      (low high start : ℤ) (xs : List A)
      → IsRanged seq low high xs
      → IsRanged seq start high (keep (λ x. leb_ℤ start (seq x)) xs)
  unfolding keep
  IsRanged-keep low high start [] h = tt
  IsRanged-keep low high start (x ∷ xs) ((l, u), h) = elim (Bool-cases (leb_ℤ start (seq x))) [
    | inl e ↦ rw e ((ground arith, u), IsRanged-keep low high start xs h)
    | inr e ↦ rw e (IsRanged-keep low high start xs h)
  ]

  IsAbove-keep : (m : ℤ) (p : A → Bool) (xs : List A) → IsAbove seq m xs → IsAbove seq m (keep p xs)
  unfolding keep
  IsAbove-keep m p [] h = tt
  IsAbove-keep m p (x ∷ xs) (l, h) = elim (Bool-cases (p x)) [
    | inl e ↦ rw e (l, IsAbove-keep m p xs h)
    | inr e ↦ rw e (IsAbove-keep m p xs h)
  ]

  pub IsIncreasing-keep :
      (p : A → Bool) (xs : List A) → IsIncreasing seq xs → IsIncreasing seq (keep p xs)
  unfolding keep
  IsIncreasing-keep p [] h = tt
  IsIncreasing-keep p (x ∷ xs) (a, h) = elim (Bool-cases (p x)) [
    | inl e ↦ rw e (IsAbove-keep (seq x) p xs a, IsIncreasing-keep p xs h)
    | inr e ↦ rw e (IsIncreasing-keep p xs h)
  ]

  pub IsAbove-IsRanged :
      (m low high : ℤ) (xs : List A) → m <ℤ low → IsRanged seq low high xs → IsAbove seq m xs
  IsAbove-IsRanged m low high [] lt h = tt
  IsAbove-IsRanged m low high (x ∷ xs) lt ((l, u), h) =
      (omega arith, IsAbove-IsRanged m low high xs lt h)
