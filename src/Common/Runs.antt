-- ===== src/Common/Runs.antt =====
-- The greedy loops that cut a list into runs of neighbours: from the first element of a run on,
-- each next one joins it as long as the run's state says so.
use qarau.Common.{
  ℕ, zero, suc, ◌≤◌, ◌≡◌, refl, sym, ap, Bool, true, false, List, [], ◌∷◌, ◌++◌, length, take, drop,
  length-drop, take-append-drop, if◌then◌else◌, arith, Bool-cases, inl, inr,
}

module _ {A S : Type 0} (start : A → S) (grown : S → A → S) (goes_on : S → A → Bool) where
  -- How many elements join a run in this state.
  unfoldable pub joined : S → List A → ℕ
  joined s [] = 0
  joined s (x ∷ xs) = let more = joined (grown s x) xs in if goes_on s x then suc more else 0

  -- The runs, each as its first element and the others. One unit of fuel for each element is
  -- enough.
  unfoldable pub runs : ℕ → List A → List (A × List A)
  unfolding joined
  runs zero xs = []
  runs (suc n) [] = []
  runs (suc n) (x ∷ xs) =
      let more = joined (start x) xs in (x, take more xs) ∷ runs n (drop more xs)

  -- Each element joins the run.
  abbrev pub Joins : S → List A → Type 0
  Joins s [] = Unit {0}
  Joins s (x ∷ xs) = (goes_on s x ≡ true) × Joins (grown s x) xs

  abbrev pub after_all : S → List A → S
  after_all s [] = s
  after_all s (x ∷ xs) = after_all (grown s x) xs

  -- The first element behind the run does not join it.
  abbrev pub Stops : S → List A → Type 0
  Stops s [] = Unit {0}
  Stops s (x ∷ xs) = goes_on s x ≡ false

  -- The runs follow each other and make up the list, and each is as long as it can be.
  abbrev pub AreRuns : List A → List (A × List A) → Type 0
  AreRuns xs [] = xs ≡ []
  AreRuns xs ((x, run) ∷ rs) =
      (rest : List A) × (xs ≡ x ∷ run ++ rest)
      × Joins (start x) run
      × Stops (after_all (start x) run) rest
      × AreRuns rest rs

  joined-Joins : (s : S) (xs : List A) → Joins s (take (joined s xs) xs)
  unfolding joined
  joined-Joins s [] = tt
  joined-Joins s (x ∷ xs) = elim (Bool-cases (goes_on s x)) [
    | inl e ↦ rw e (e, joined-Joins (grown s x) xs)
    | inr e ↦ rw e tt
  ]

  joined-Stops :
      (s : S) (xs : List A) → Stops (after_all s (take (joined s xs) xs)) (drop (joined s xs) xs)
  unfolding joined
  joined-Stops s [] = tt
  joined-Stops s (x ∷ xs) = elim (Bool-cases (goes_on s x)) [
    | inl e ↦ rw e (joined-Stops (grown s x) xs)
    | inr e ↦ rw e e
  ]

  pub runs-AreRuns : (n : ℕ) (xs : List A) → length xs ≤ n → AreRuns xs (runs n xs)
  unfolding runs
  runs-AreRuns zero [] h = refl
  runs-AreRuns zero (x ∷ xs) h = absurd (omega arith)
  runs-AreRuns (suc n) [] h = refl
  runs-AreRuns (suc n) (x ∷ xs) h = (
    drop (joined (start x) xs) xs,
    ap (λ q. x ∷ q) (sym (take-append-drop (joined (start x) xs) xs)),
    joined-Joins (start x) xs,
    joined-Stops (start x) xs,
    runs-AreRuns n (drop (joined (start x) xs) xs)
        (omega (arith, length-drop (joined (start x) xs) xs)),
  )
