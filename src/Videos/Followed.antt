-- ===== src/Videos/Followed.antt =====
-- GetVideoProcess relies on it that a done fetch job is followed by the asr job of its video: the
-- invariant of the `jobs` table that says so, over every history of requests.
use qarau.Common.Tables.{
  In, In-update_where, find, find-In, touched, update_returning, update_where, update_where-In,
}
use qarau.Store.{is_fetch_job}
use Prim.Native.String.{String}
use qarau.Common.{
  some, arith, subst, ap, ℕ, ◌<◌, ◌≡◌, refl, sym, ◌∙◌, Bool, true, List, [], ◌∷◌, Bool-cases, inl,
  inr, ◌⊎◌,
}
use qarau.Jobs.{
  finished, is_typed_lease, claimed, new_job, has_id, mark_job_done, JobType, claim_job, Job, fetch,
  asr, done,
}
use qarau.Jobs.Valid.{In-unique, SameKey, touched-SameKey, IsValid}

-- The asr job of the same video is in the list, with a larger id.
abbrev pub HasAsr : List Job → Job → Type 0
HasAsr js j = (k : Job) × In k js × (k.job_type ≡ asr) × (k.video_id ≡ j.video_id) × (j.id < k.id)

abbrev pub IsFollowed : List Job → Type 0
IsFollowed js = (j : Job) → In j js → j.job_type ≡ fetch → j.state ≡ done → HasAsr js j

pub In-lt : (n : ℕ) (j : Job) (js : List Job) → In j js → IsValid n js → j.id < n
In-lt n j [] m v = absurd m
In-lt n j (k ∷ ks) (inl q) v = rw q v.1
In-lt n j (k ∷ ks) (inr m) v = In-lt n j ks m v.3

module _ (p : Job → Bool) (f : Job → Job) (keeps : (k : Job) → SameKey k (f k)) where
  HasAsr-update_where : (j : Job) (js : List Job) → HasAsr js j → HasAsr (update_where p f js) j
  HasAsr-update_where j js (k, m, a, b, lt) =
      let (x, y, z) = touched-SameKey p f k (keeps k) in
      (touched p f k, update_where-In p f k js m, z ∙ a, y ∙ b, rw x lt)

  -- A row of the table after an update: one that the update met, or a row as it was.
  update_where-split :
      (i : Job) (js : List Job)
      → In i (update_where p f js)
      → ((j : Job) × In j js × (p j ≡ true) × (i ≡ f j)) ⊎ In i js
  update_where-split i js m =
      let (j, n, e) = In-update_where p f i js m in
      elim (Bool-cases (p j)) [
        | inl t ↦ inl (j, n, t, ground (arith))
        | inr t ↦ inr (subst (λ r. In r js) (ground arith) n)
      ]

  update_where-IsFollowed :
      (js : List Job)
      → ((k : Job) → p k ≡ true → (f k).job_type ≡ fetch → (f k).state ≡ done → ⊥)
      → IsFollowed js
      → IsFollowed (update_where p f js)
  update_where-IsFollowed js never h i m ty st = go (update_where-split i js m)
    where
      go :
          ((j : Job) × In j js × (p j ≡ true) × (i ≡ f j)) ⊎ In i js
          → HasAsr (update_where p f js) i
      go (inl (j, n, t, e)) =
          absurd (never j t (ap Job.job_type (sym e) ∙ ty) (ap Job.state (sym e) ∙ st))
      go (inr n) = HasAsr-update_where i js (h i n ty st)

pub update_returning-IsFollowed :
    (p : Job → Bool) (f : Job → Job) (js : List Job) {js' : List Job}
    → ((k : Job) → SameKey k (f k))
    → ((k : Job) → p k ≡ true → (f k).job_type ≡ fetch → (f k).state ≡ done → ⊥)
    → update_returning p f js ≡ some js'
    → IsFollowed js
    → IsFollowed js'
unfolding update_returning
update_returning-IsFollowed p f js {js'} keeps never e h =
    subst IsFollowed (ground arith) (update_where-IsFollowed p f keeps js never h)

pub claim_job-IsFollowed :
    (ty : JobType) (worker : String) (until now : ℕ) (locked : ℕ → Bool) (js : List Job) {j : Job}
    {js' : List Job}
    → claim_job ty worker until now locked js ≡ some (j, js')
    → IsFollowed js
    → IsFollowed js'
unfolding claim_job
claim_job-IsFollowed ty worker until now locked js {j} {js'} e h = subst IsFollowed (ground arith) (
    update_where-IsFollowed (has_id j.id) (claimed worker until now) (λ k. (refl, refl, refl)) js
      (λ k t x y. cc) h)

-- A new row is a pending job, and follows the done job it is made for, if any.
pub new_job-IsFollowed :
    (n v : ℕ) (ty : JobType) (online : String) (now : ℕ) (js : List Job)
    → IsFollowed js
    → IsFollowed (new_job n v ty online now ∷ js)
new_job-IsFollowed n v ty online now js h i (inl q) t st = absurd (ground arith)
new_job-IsFollowed n v ty online now js h i (inr m) t st =
    let (k, l, a, b, lt) = h i m t st in (k, inr l, a, b, lt)

-- CompleteFetch marks one job done and adds the asr job of its video.
pub complete_fetch-IsFollowed :
    (i : ℕ) (worker : String) (now n : ℕ) (js mid : List Job) (of : Job) (online : String)
    → mark_job_done i fetch worker now js ≡ some mid
    → find (is_fetch_job i) mid ≡ some of
    → IsValid n mid
    → IsFollowed js
    → IsFollowed (new_job n of.video_id asr online now ∷ mid)
unfolding mark_job_done update_returning
complete_fetch-IsFollowed i worker now n js mid of online e at v h = λ j. elim [
  | inl q ↦ λ t st. absurd (ground arith)
  | inr m ↦ λ t st.
      go j m t st (
        update_where-split p (finished now) (λ k. (refl, refl, refl)) j js (subst (In j) mid_lem m))
]
  where
    p : Job → Bool
    p = is_typed_lease i fetch worker

    mid_lem : mid ≡ update_where p (finished now) js
    mid_lem = ground arith

    go :
        (j : Job)
        → In j mid
        → j.job_type ≡ fetch
        → j.state ≡ done
        → ((k : Job) × In k js × (p k ≡ true) × (j ≡ finished now k)) ⊎ In j js
        → HasAsr (new_job n of.video_id asr online now ∷ mid) j
    go j m t st (inl (k, l, c, q)) =
        let (l2, c2) = find-In (is_fetch_job i) mid of at in
        let same : j ≡ of = In-unique n of j mid v l2 m (ground arith) in
        (
          new_job n of.video_id asr online now,
          inl refl,
          refl,
          ap Job.video_id (sym same),
          In-lt n j mid m v,
        )
    go j m t st (inr l) =
        let (k, b, x, y, lt) =
          subst (λ r. HasAsr r j) (sym mid_lem)
            (HasAsr-update_where p (finished now) (λ k. (refl, refl, refl)) j js (h j l t st)) in
        (k, inr b, x, y, lt)
