-- ===== src/Worker.antt =====
-- The polling loop of the workers (internal/worker/loop.go). What Claim and Process return, round
-- by round, is given; the loop's doing is how long it sleeps, in seconds. A cancelled context ends
-- the rounds early.
use native.Mathlib.Nat.{pow-suc}
use qarau.Common.{◌≤◌, ℕ, zero, suc, ◌*◌, ◌^◌, ◌≡◌, refl, ap, arith, List, [], ◌∷◌, min, max}

-- A round: no job, a failed claim, a job that was processed, or an error that ends the worker.
pub data Round : Type 0 where
  wait_no_job backoff_on_error processed process_failed : Round

abbrev pub initial_back_off : ℕ
initial_back_off = 60

abbrev pub max_back_off : ℕ
max_back_off = 600

abbrev pub poll_period : ℕ
poll_period = 10

-- Loop, from a back-off period on: the sleeps.
unfoldable pub loop : ℕ → List Round → List ℕ
loop back_off [] = []
loop back_off (wait_no_job ∷ rs) = max poll_period 5 ∷ loop initial_back_off rs
loop back_off (backoff_on_error ∷ rs) = max back_off 5 ∷ loop (min (back_off * 2) max_back_off) rs
loop back_off (processed ∷ rs) = loop back_off rs
loop back_off (process_failed ∷ rs) = []

-- The sleeps as they are meant: ten seconds without a job, and after an error a minute, doubled
-- for each error before it since there was no job, up to ten minutes.
abbrev pub sleeps : ℕ → List Round → List ℕ
sleeps errors [] = []
sleeps errors (wait_no_job ∷ rs) = 10 ∷ sleeps 0 rs
sleeps errors (backoff_on_error ∷ rs) = min (60 * 2 ^ errors) 600 ∷ sleeps (suc errors) rs
sleeps errors (processed ∷ rs) = sleeps errors rs
sleeps errors (process_failed ∷ rs) = []

doubled : (n : ℕ) → min (min (60 * 2 ^ n) 600 * 2) 600 ≡ min (60 * 2 ^ suc n) 600
doubled n = omega (arith, pow-suc 2 n)

at_least : (n : ℕ) → 1 ≤ 2 ^ n
at_least zero = omega arith
at_least (suc n) = omega (arith, at_least n, pow-suc 2 n)

loop-after : (n : ℕ) (rs : List Round) → loop (min (60 * 2 ^ n) 600) rs ≡ sleeps n rs
unfolding loop
loop-after n [] = refl
loop-after n (wait_no_job ∷ rs) = ap (λ q. 10 ∷ q) (loop-after 0 rs)
loop-after n (backoff_on_error ∷ rs) =
    rw (doubled n, loop-after (suc n) rs)
      (ap (λ m. m ∷ sleeps (suc n) rs) (omega (arith, at_least n)))
loop-after n (processed ∷ rs) = loop-after n rs
loop-after n (process_failed ∷ rs) = refl

-- The sleeps of Loop, whatever the rounds: ten seconds when there is no job; after a failed claim a
-- minute, doubled for each failed claim since the last round without a job, or since the start, up
-- to ten minutes; none after a job, which leaves the doubling as it is; and no round follows an
-- error of Process.
pub loop-sleeps : (rs : List Round) → loop initial_back_off rs ≡ sleeps 0 rs
loop-sleeps rs = loop-after 0 rs
