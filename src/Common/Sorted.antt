-- ===== src/Common/Sorted.antt =====
-- SELECT … ORDER BY of a column of integers.
pub mod Parts
use Prim.Native.Nat.{ℕ, zero, suc}
use mathlib.Core.Path.{subst, ◌≡◌, refl, sym, ap, ◌∙◌}
use mathlib.Core.Logic.{◌≢◌, inl, inr}
use mathlib.Core.Bool.{Bool, true, false, ◌&&◌}
use mathlib.Core.List.{List, [], ◌∷◌}
use native.Mathlib.Omega.{arith}
use qarau.Common.Tests.{if◌then◌else◌, Bool-cases}
use qarau.Common.Lists.{take, drop}
use qarau.Common.Int.{pos, negsuc, ◌≤ℤ◌, ℤ, leb_ℤ, ltb_ℤ, ◌<ℤ◌}
use qarau.Common.Tests.{leb→le}

lt-of-le-ne : (a b : ℤ) → leb_ℤ a b ≡ true → a ≢ b → a <ℤ b
lt-of-le-ne (pos m) (pos n) le ne =
    let k : m ≢ n = (λ e. ne (ap pos e)) in ground (arith, leb→le m n)
lt-of-le-ne (pos m) (negsuc n) le ne = ground arith
lt-of-le-ne (negsuc m) (pos n) le ne = ground arith
lt-of-le-ne (negsuc m) (negsuc n) le ne = let k : m ≢ n = (λ e. ne (ap negsuc e)) in ground arith

module _ {A : Type 0} (seq : A → ℤ) where
  -- ORDER BY seq, one row at a time.
  unfoldable pub insert_by_seq : A → List A → List A
  insert_by_seq x [] = x ∷ []
  insert_by_seq x (y ∷ ys) =
      let rest = insert_by_seq x ys in if leb_ℤ (seq x) (seq y) then x ∷ y ∷ ys else y ∷ rest

  -- SELECT … WHERE … ORDER BY seq.
  unfoldable pub select_by_seq : (A → Bool) → List A → List A
  unfolding insert_by_seq
  select_by_seq p [] = []
  select_by_seq p (x ∷ xs) =
      let rest = select_by_seq p xs in if p x then insert_by_seq x rest else rest

  abbrev pub IsAbove : ℤ → List A → Type 0
  IsAbove m [] = Unit {0}
  IsAbove m (x ∷ xs) = (m <ℤ seq x) × IsAbove m xs

  abbrev pub IsIncreasing : List A → Type 0
  IsIncreasing [] = Unit {0}
  IsIncreasing (x ∷ xs) = IsAbove (seq x) xs × IsIncreasing xs

  IsAbove-insert :
      (m : ℤ) (x : A) (ys : List A) → m <ℤ seq x → IsAbove m ys → IsAbove m (insert_by_seq x ys)
  unfolding insert_by_seq
  IsAbove-insert m x [] lt h = (lt, tt)
  IsAbove-insert m x (y ∷ ys) lt (l, h) = elim (Bool-cases (leb_ℤ (seq x) (seq y))) [
    | inl e ↦ rw e (lt, (l, h))
    | inr e ↦ rw e (l, IsAbove-insert m x ys lt h)
  ]

  IsAbove-trans : (m k : ℤ) (ys : List A) → m <ℤ k → IsAbove k ys → IsAbove m ys
  IsAbove-trans m k [] lt h = tt
  IsAbove-trans m k (y ∷ ys) lt (l, h) = (omega arith, IsAbove-trans m k ys lt h)

  -- No row of the list that meets the test has the number `k`.
  abbrev pub IsUnused : (A → Bool) → ℤ → List A → Type 0
  IsUnused p k [] = Unit {0}
  IsUnused p k (x ∷ xs) = (p x ≡ true → k ≢ seq x) × IsUnused p k xs

  -- The rows that meet the test have distinct numbers.
  abbrev pub IsKeyed : (A → Bool) → List A → Type 0
  IsKeyed p [] = Unit {0}
  IsKeyed p (x ∷ xs) = (p x ≡ true → IsUnused p (seq x) xs) × IsKeyed p xs

  -- All rows that meet the test have numbers in a range.
  abbrev pub IsWithin : (A → Bool) → ℤ → ℤ → List A → Type 0
  IsWithin p low high [] = Unit {0}
  IsWithin p low high (x ∷ xs) =
      (p x ≡ true → (low ≤ℤ seq x) × (seq x <ℤ high)) × IsWithin p low high xs

  abbrev pub IsRanged : ℤ → ℤ → List A → Type 0
  IsRanged low high [] = Unit {0}
  IsRanged low high (x ∷ xs) = ((low ≤ℤ seq x) × (seq x <ℤ high)) × IsRanged low high xs

  IsRanged-insert :
      (low high : ℤ) (x : A) (ys : List A)
      → low ≤ℤ seq x
      → seq x <ℤ high
      → IsRanged low high ys
      → IsRanged low high (insert_by_seq x ys)
  unfolding insert_by_seq
  IsRanged-insert low high x [] l u h = ((l, u), tt)
  IsRanged-insert low high x (y ∷ ys) l u (b, h) = elim (Bool-cases (leb_ℤ (seq x) (seq y))) [
    | inl e ↦ rw e ((l, u), (b, h))
    | inr e ↦ rw e (b, IsRanged-insert low high x ys l u h)
  ]

  pub select_by_seq-IsRanged :
      (p : A → Bool) (low high : ℤ) (xs : List A)
      → IsWithin p low high xs
      → IsRanged low high (select_by_seq p xs)
  unfolding select_by_seq
  select_by_seq-IsRanged p low high [] h = tt
  select_by_seq-IsRanged p low high (x ∷ xs) (b, h) = elim (Bool-cases (p x)) [
    | inl e ↦
        let (l, u) = b e in
        rw e (IsRanged-insert low high x _ l u (select_by_seq-IsRanged p low high xs h))
    | inr e ↦ rw e (select_by_seq-IsRanged p low high xs h)
  ]

  -- No row of the list has the number `k`.
  abbrev pub IsNew : ℤ → List A → Type 0
  IsNew k [] = Unit {0}
  IsNew k (x ∷ xs) = (k ≢ seq x) × IsNew k xs

  IsNew-insert :
      (k : ℤ) (x : A) (ys : List A) → k ≢ seq x → IsNew k ys → IsNew k (insert_by_seq x ys)
  unfolding insert_by_seq
  IsNew-insert k x [] ne h = (ne, tt)
  IsNew-insert k x (y ∷ ys) ne (n, h) = elim (Bool-cases (leb_ℤ (seq x) (seq y))) [
    | inl e ↦ rw e (ne, (n, h))
    | inr e ↦ rw e (n, IsNew-insert k x ys ne h)
  ]

  select_by_seq-IsNew :
      (p : A → Bool) (k : ℤ) (xs : List A) → IsUnused p k xs → IsNew k (select_by_seq p xs)
  unfolding select_by_seq
  select_by_seq-IsNew p k [] h = tt
  select_by_seq-IsNew p k (x ∷ xs) (ne, h) = elim (Bool-cases (p x)) [
    | inl e ↦ rw e (IsNew-insert k x _ (ne e) (select_by_seq-IsNew p k xs h))
    | inr e ↦ rw e (select_by_seq-IsNew p k xs h)
  ]

  insert_by_seq-IsIncreasing :
      (x : A) (ys : List A) → IsNew (seq x) ys → IsIncreasing ys → IsIncreasing (insert_by_seq x ys)
  unfolding insert_by_seq
  insert_by_seq-IsIncreasing x [] n h = (tt, tt)
  insert_by_seq-IsIncreasing x (y ∷ ys) (ne, n) (above, h) =
      elim (Bool-cases (leb_ℤ (seq x) (seq y))) [
        | inl e ↦
            let lt : seq x <ℤ seq y = lt-of-le-ne (seq x) (seq y) e ne in
            rw e ((lt, IsAbove-trans (seq x) (seq y) ys lt above), (above, h))
        | inr e ↦
            rw e (
              IsAbove-insert (seq y) x ys (ground arith) above,
              insert_by_seq-IsIncreasing x ys n h,
            )
      ]

  pub select_by_seq-IsIncreasing :
      (p : A → Bool) (xs : List A) → IsKeyed p xs → IsIncreasing (select_by_seq p xs)
  unfolding select_by_seq
  select_by_seq-IsIncreasing p [] h = tt
  select_by_seq-IsIncreasing p (x ∷ xs) (u, h) = elim (Bool-cases (p x)) [
    | inl e ↦ rw e (
        insert_by_seq-IsIncreasing x (select_by_seq p xs) (select_by_seq-IsNew p (seq x) xs (u e))
          (select_by_seq-IsIncreasing p xs h))
    | inr e ↦ rw e (select_by_seq-IsIncreasing p xs h)
  ]
