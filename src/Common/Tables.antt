-- ===== src/Common/Tables.antt =====
-- Tables as lists of rows: the SQL statements that select, update and pick the oldest row.
use native.Mathlib.Nat.{le_refl, le_trans}
use mathlib.Core.Bool.{false≢true}
use Prim.Native.Nat.{ℕ, ◌≤◌}
use mathlib.Core.Path.{◌≡◌, refl, sym, ap, ◌∙◌}
use mathlib.Core.Logic.{◌⊎◌, inl, inr}
use mathlib.Core.Bool.{Bool, true, false}
use mathlib.Core.Option.{Option, none, some}
use mathlib.Core.List.{List, [], ◌∷◌}
use native.Mathlib.Omega.{arith}
use qarau.Common.Tests.{if◌then◌else◌, leb, leb→le, Bool-cases}

module _ {A : Type 0} where
  -- SELECT … WHERE: the first row that meets the test.
  unfoldable pub find : (A → Bool) → List A → Option A
  find p [] = none
  find p (x ∷ xs) = if p x then some x else find p xs

  -- UPDATE … SET … WHERE: every row that meets the test.
  unfoldable pub update_where : (A → Bool) → (A → A) → List A → List A
  update_where p f [] = []
  update_where p f (x ∷ xs) = (if p x then f x else x) ∷ update_where p f xs

  -- UPDATE … RETURNING id read with QueryRow: no row that meets the test is pgx.ErrNoRows.
  unfoldable pub update_returning : (A → Bool) → (A → A) → List A → Option (List A)
  update_returning p f xs = elim (find p xs) [ none ↦ none | some x ↦ some (update_where p f xs) ]

  -- Membership, by recursion.
  abbrev pub In : A → List A → Type 0
  In x [] = ⊥
  In x (y ∷ ys) = (x ≡ y) ⊎ In x ys

  abbrev pub touched : (A → Bool) → (A → A) → A → A
  touched p f x = if p x then f x else x

  abbrev pub touch : (A → Bool) → (A → A) → Option A → Option A
  touch p f none = none
  touch p f (some x) = some (touched p f x)

  pub find-In : (p : A → Bool) (xs : List A) (x : A) → find p xs ≡ some x → In x xs × (p x ≡ true)
  unfolding find
  find-In p [] x h = cc
  find-In p (y ∷ ys) x h = elim (Bool-cases (p y)) [
    | inl e ↦ ground arith
    | inr e ↦ ground (arith, find-In p ys x)
  ]

  pub find-some :
      (p : A → Bool) (xs : List A) (x : A) → In x xs → p x ≡ true → (y : A) × (find p xs ≡ some y)
  unfolding find
  find-some p [] x m h = absurd m
  find-some p (y ∷ ys) x (inl q) h = (y, ground (arith, ap p q))
  find-some p (y ∷ ys) x (inr m) h = elim (Bool-cases (p y)) [
    | inl e ↦ (y, rw e refl)
    | inr e ↦ rw e (find-some p ys x m h)
  ]

  -- A row of the table after an update comes from one before it.
  pub In-update_where :
      (p : A → Bool) (f : A → A) (y : A) (xs : List A)
      → In y (update_where p f xs)
      → (x : A) × In x xs × (y ≡ touched p f x)
  unfolding update_where
  In-update_where p f y [] m = absurd m
  In-update_where p f y (x ∷ xs) (inl q) = (x, inl refl, q)
  In-update_where p f y (x ∷ xs) (inr m) =
      let (z, n, e) = In-update_where p f y xs m in (z, inr n, e)

  pub update_where-In :
      (p : A → Bool) (f : A → A) (x : A) (xs : List A)
      → In x xs
      → In (touched p f x) (update_where p f xs)
  unfolding update_where
  update_where-In p f x [] m = absurd m
  update_where-In p f x (y ∷ ys) (inl q) = inl (ap (touched p f) q)
  update_where-In p f x (y ∷ ys) (inr m) = inr (update_where-In p f x ys m)

-- Rows with the time of their creation.
module _ {A : Type 0} (created_at : A → ℕ) where
  -- The older of a row and the answer so far.
  abbrev pub older : A → Option A → Option A
  older x none = some x
  older x (some y) = if leb (created_at x) (created_at y) then some x else some y

  -- SELECT … WHERE … ORDER BY created_at LIMIT 1.
  unfoldable pub oldest : (A → Bool) → List A → Option A
  oldest p [] = none
  oldest p (x ∷ xs) = let rest = oldest p xs in if p x then older x rest else rest

  -- The row that a claim takes: none if no row is claimable, and otherwise a claimable row that
  -- no claimable row is older than.
  abbrev pub IsOldest : (A → Bool) → List A → Option A → Type 0
  IsOldest p xs none = (y : A) → In y xs → p y ≡ false
  IsOldest p xs (some x) =
      In x xs × (p x ≡ true) × ((y : A) → In y xs → p y ≡ true → created_at x ≤ created_at y)

  keep-IsOldest :
      (p : A → Bool) (j : A) (js : List A) (o : Option A)
      → p j ≡ false
      → IsOldest p js o
      → IsOldest p (j ∷ js) o
  keep-IsOldest p j js none e h = λ k. elim [ inl q ↦ rw q e | inr m ↦ h k m ]
  keep-IsOldest p j js (some i) e (m, c, least) = (
    inr m,
    c,
    λ k. elim [ inl q ↦ λ t. absurd (false≢true (sym e ∙ ap p (sym q) ∙ t)) | inr n ↦ least k n ],
  )

  first-IsOldest :
      (p : A → Bool) (j : A) (js : List A)
      → p j ≡ true
      → IsOldest p js none
      → IsOldest p (j ∷ js) (some j)
  first-IsOldest p j js e h = (
    inl refl,
    e,
    λ k. elim [
      | inl q ↦ λ t. rw q (le_refl (created_at j))
      | inr n ↦ λ t. absurd (false≢true (sym (h k n) ∙ t))
    ],
  )

  beat-IsOldest :
      (p : A → Bool) (j i : A) (js : List A)
      → p j ≡ true
      → created_at j ≤ created_at i
      → IsOldest p js (some i)
      → IsOldest p (j ∷ js) (some j)
  beat-IsOldest p j i js e le (m, c, least) = (
    inl refl,
    e,
    λ k. elim [
      | inl q ↦ λ t. rw q (le_refl (created_at j))
      | inr n ↦ λ t. le_trans le (least k n t)
    ],
  )

  lose-IsOldest :
      (p : A → Bool) (j i : A) (js : List A)
      → created_at i ≤ created_at j
      → IsOldest p js (some i)
      → IsOldest p (j ∷ js) (some i)
  lose-IsOldest p j i js le (m, c, least) =
      (inr m, c, λ k. elim [ inl q ↦ λ t. rw q le | inr n ↦ least k n ])

  older-IsOldest :
      (p : A → Bool) (j : A) (js : List A) (o : Option A)
      → p j ≡ true
      → IsOldest p js o
      → IsOldest p (j ∷ js) (older j o)
  older-IsOldest p j js none e h = first-IsOldest p j js e h
  older-IsOldest p j js (some i) e h = elim (Bool-cases (leb (created_at j) (created_at i))) [
    | inl le ↦ rw le (beat-IsOldest p j i js e (leb→le _ _ le) h)
    | inr gt ↦ rw gt (lose-IsOldest p j i js (ground arith) h)
  ]

  pub oldest-IsOldest : (p : A → Bool) (js : List A) → IsOldest p js (oldest p js)
  unfolding oldest
  oldest-IsOldest p [] = λ k h. absurd h
  oldest-IsOldest p (j ∷ js) = elim (Bool-cases (p j)) [
    | inl e ↦ rw e (older-IsOldest p j js (oldest p js) e (oldest-IsOldest p js))
    | inr e ↦ rw e (keep-IsOldest p j js (oldest p js) e (oldest-IsOldest p js))
  ]
