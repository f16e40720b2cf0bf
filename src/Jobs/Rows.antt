-- ===== src/Jobs/Rows.antt =====
-- The `jobs` table seen through its rows: what a statement does to the row of each id, and what
-- ClaimJob's ORDER BY … LIMIT 1 returns.
use qarau.Common.Tables.{In, find, find-In, find-some, touch, update_returning, update_where}
use qarau.Common.{◌≢◌, ℕ, ◌≡◌, refl, sym, ◌∙◌, Bool, true, Option, none, some, List, [], ◌∷◌, arith}
use qarau.Jobs.{Job, has_id, get_job}

pub get_job-update_where :
    (p : Job → Bool) (f : Job → Job) (i : ℕ) (js : List Job)
    → ((j : Job) → (f j).id ≡ j.id)
    → get_job i (update_where p f js) ≡ touch p f (get_job i js)
unfolding get_job find update_where
get_job-update_where p f i [] keeps = refl
get_job-update_where p f i (j ∷ js) keeps =
    ground (arith, keeps j, get_job-update_where p f i js keeps)

pub get_job-id : (i : ℕ) (js : List Job) (j : Job) → get_job i js ≡ some j → j.id ≡ i
unfolding get_job
get_job-id i js j h = ground (arith, find-In (has_id i) js j h)

pub get_job-In : (i : ℕ) (js : List Job) (j : Job) → get_job i js ≡ some j → In j js
unfolding get_job
get_job-In i js j h = (find-In (has_id i) js j h).0

-- An update that meets the row of one id, and rows of no other.
pub update_returning_lem :
    (p : Job → Bool) (f : Job → Job) (i : ℕ) (js : List Job) (j : Job)
    → ((k : Job) → (f k).id ≡ k.id)
    → get_job i js ≡ some j
    → p j ≡ true
    → ((k : Job) → p k ≡ true → k.id ≡ i)
    → (update_returning p f js ≡ some (update_where p f js))
      × (get_job i (update_where p f js) ≡ some (f j))
      × ((k : ℕ) → k ≢ i → get_job k (update_where p f js) ≡ get_job k js)
unfolding update_returning
update_returning_lem p f i js j keeps at hit only = (
  ground (arith, find-some p js j (get_job-In i js j at) hit),
  get_job-update_where p f i js keeps ∙ rw at (rw hit refl),
  λ k other. get_job-update_where p f k js keeps ∙ miss k other (get_job k js) refl,
)
  where
    miss : (k : ℕ) → k ≢ i → (o : Option Job) → get_job k js ≡ o → touch p f o ≡ o
    miss k other none e = refl
    miss k other (some r) e = ground (
      arith,
      get_job-id k js r e,
      λ (q : p r ≡ true). other (sym (get_job-id k js r e) ∙ only r q),
    )
