-- ===== src/Videos/Latest.antt =====
-- The jobs of one video: two at most, and the latest of them.
use qarau.Common.Tables.{In}
use native.Mathlib.Nat.{le_refl}
use qarau.Jobs.Valid.{IsValid, IsNew}
use qarau.Common.{
  suc, ==_self, Bool, refl, [], ltb, ◌∙◌, inr, ◌+◌, subst, Bool-cases, ap, arith, true, ◌==◌, inl,
  ◌≤◌, ◌∷◌, length, some, ◌⊎◌, false, ◌≡◌, if◌then◌else◌, List, ℕ,
}
use qarau.Store.{exists}
use qarau.Videos.Process.{newer, latest_from, get_latest_job, get_video_jobs}
use qarau.Jobs.{asr, fetch, JobType, Job, has_key, is_type}

newer-cases : (b j : Job) → ((newer b j ≡ b) × (j.id ≤ b.id)) ⊎ ((newer b j ≡ j) × (b.id ≤ j.id))
newer-cases b j = elim (Bool-cases (ltb b.id j.id)) [
  | inl e ↦ inr (rw e refl, ground arith)
  | inr e ↦ inl (rw e refl, ground arith)
]

IsLatest : Job → Job → List Job → Type 0
IsLatest b r js = ((r ≡ b) ⊎ In r js) × (b.id ≤ r.id) × ((k : Job) → In k js → k.id ≤ r.id)

latest_from_lem : (b : Job) (js : List Job) → IsLatest b (latest_from b js) js
unfolding latest_from IsLatest
latest_from_lem b [] = (inl refl, le_refl b.id, λ k m. absurd m)
latest_from_lem b (j ∷ js) =
    step b j js (latest_from (newer b j) js) (newer-cases b j) (latest_from_lem (newer b j) js)
  where
    step :
        (b j : Job) (js : List Job) (r : Job)
        → ((newer b j ≡ b) × (j.id ≤ b.id)) ⊎ ((newer b j ≡ j) × (b.id ≤ j.id))
        → IsLatest (newer b j) r js
        → IsLatest b r (j ∷ js)
    step b j js r (inl (e, le)) (at, up, all) = (
      elim at [ inl q ↦ inl (q ∙ e) | inr m ↦ inr (inr m) ],
      ground (arith, ap Job.id e),
      λ k. elim [ inl q ↦ ground (arith, ap Job.id e, ap Job.id q) | inr m ↦ all k m ],
    )
    step b j js r (inr (e, le)) (at, up, all) = (
      elim at [ inl q ↦ inr (inl (q ∙ e)) | inr m ↦ inr (inr m) ],
      ground (arith, ap Job.id e),
      λ k. elim [ inl q ↦ ground (arith, ap Job.id e, ap Job.id q) | inr m ↦ all k m ],
    )

-- The latest job is one of the list, and no job of it has a larger id.
pub get_latest_job-some :
    (js : List Job) (j : Job)
    → get_latest_job js ≡ some j
    → In j js × ((k : Job) → In k js → k.id ≤ j.id)
unfolding get_latest_job IsLatest
get_latest_job-some [] j e = absurd (ground arith)
get_latest_job-some (i ∷ js) j e =
    let (at, le, all) = latest_from_lem i (i ∷ js) in
    let q : latest_from i (i ∷ js) ≡ j = ground arith in
    subst (λ r. In r (i ∷ js) × ((k : Job) → In k (i ∷ js) → k.id ≤ r.id)) q
      (elim at [ inl p ↦ inl p | inr m ↦ m ], all)

In-if :
    (b : Bool) (j k : Job) (r : List Job)
    → In j (if b then k ∷ r else r)
    → ((b ≡ true) × (j ≡ k)) ⊎ In j r
In-if true j k r (inl q) = inl (refl, q)
In-if true j k r (inr m) = inr m
In-if false j k r m = inr m

pub In-get_video_jobs :
    (v : ℕ) (j : Job) (js : List Job) → In j (get_video_jobs v js) → In j js × (j.video_id ≡ v)
unfolding get_video_jobs
In-get_video_jobs v j [] m = absurd m
In-get_video_jobs v j (k ∷ ks) m = elim (In-if (k.video_id == v) j k (get_video_jobs v ks) m) [
  | inl (t, q) ↦ (inl q, ap Job.video_id q ∙ ground arith)
  | inr n ↦ let (a, b) = In-get_video_jobs v j ks n in (inr a, b)
]

pub get_video_jobs-In :
    (v : ℕ) (j : Job) (js : List Job) → In j js → j.video_id ≡ v → In j (get_video_jobs v js)
unfolding get_video_jobs
get_video_jobs-In v j [] m e = absurd m
get_video_jobs-In v j (k ∷ ks) (inl q) e =
    let t : (k.video_id == v) ≡ true = ground (arith, ap Job.video_id q) in rw t (inl q)
get_video_jobs-In v j (k ∷ ks) (inr m) e = elim (Bool-cases (k.video_id == v)) [
  | inl t ↦ rw t (inr (get_video_jobs-In v j ks m e))
  | inr t ↦ rw t (get_video_jobs-In v j ks m e)
]

abbrev one : Bool → ℕ
one true = 1
one false = 0

one-le : (b : Bool) → one b ≤ 1
one-le true = le_refl 1
one-le false = omega arith

IsNew-exists :
    (j : Job) (js : List Job) → IsNew j js → exists (has_key j.video_id j.job_type) js ≡ false
unfolding exists
IsNew-exists j [] new = refl
IsNew-exists j (k ∷ ks) (a, b, new) = rw b (IsNew-exists j ks new)

-- A row more counts for its own key only.
abbrev Bounded : ℕ → List Job → Type 0
Bounded v js =
    length (get_video_jobs v js)
    ≤ one (exists (has_key v fetch) js) + one (exists (has_key v asr) js)

exists-hit : (p : Job → Bool) (j : Job) (js : List Job) → p j ≡ true → exists p (j ∷ js) ≡ true
unfolding exists
exists-hit p j js e = rw e refl

exists-miss :
    (p : Job → Bool) (j : Job) (js : List Job) → p j ≡ false → exists p (j ∷ js) ≡ exists p js
unfolding exists
exists-miss p j js e = rw e refl

length-hit :
    (j : Job) (js : List Job)
    → length (get_video_jobs j.video_id (j ∷ js)) ≡ suc (length (get_video_jobs j.video_id js))
unfolding get_video_jobs
length-hit j js = rw (==_self j.video_id) refl

own_key : (j : Job) (ty : JobType) → j.job_type ≡ ty → has_key j.video_id ty j ≡ true
own_key j fetch e = rw (==_self j.video_id, e) refl
own_key j asr e = rw (==_self j.video_id, e) refl

other_key :
    (j : Job) (v : ℕ) (t u : JobType) → j.job_type ≡ t → is_type t u ≡ false → has_key v u j ≡ false
other_key j v t u e h = ground (arith, ap (λ x. is_type x u) e)

own-Bounded :
    (j : Job) (js : List Job) (ty : JobType)
    → j.job_type ≡ ty
    → exists (has_key j.video_id ty) js ≡ false
    → Bounded j.video_id js
    → Bounded j.video_id (j ∷ js)
own-Bounded j js fetch e fresh ih =
    rw
      (
        length-hit j js,
        exists-hit (has_key j.video_id fetch) j js (own_key j fetch e),
        exists-miss (has_key j.video_id asr) j js (other_key j j.video_id fetch asr e refl),
      )
      (omega (arith, ih, ap one fresh))
own-Bounded j js asr e fresh ih =
    rw
      (
        length-hit j js,
        exists-hit (has_key j.video_id asr) j js (own_key j asr e),
        exists-miss (has_key j.video_id fetch) j js (other_key j j.video_id asr fetch e refl),
      )
      (omega (arith, ih, ap one fresh))

other-Bounded :
    (v : ℕ) (j : Job) (js : List Job)
    → (j.video_id == v) ≡ false
    → Bounded v js
    → Bounded v (j ∷ js)
unfolding get_video_jobs exists
other-Bounded v j js e ih = rw e ih

-- A video has at most one job of each type.
valid-Bounded : (v n : ℕ) (js : List Job) → IsValid n js → Bounded v js
unfolding get_video_jobs exists
valid-Bounded v n [] val = omega arith
valid-Bounded v n (j ∷ js) (s, lt, new, val) = elim (Bool-cases (j.video_id == v)) [
  | inl e ↦
      subst (λ w. Bounded w js → Bounded w (j ∷ js)) (ground arith)
        (own-Bounded j js j.job_type refl (IsNew-exists j js new)) (valid-Bounded v n js val)
  | inr e ↦ other-Bounded v j js e (valid-Bounded v n js val)
]

pub length-get_video_jobs-le :
    (v n : ℕ) (js : List Job) → IsValid n js → length (get_video_jobs v js) ≤ 2
length-get_video_jobs-le v n js val = omega (
  arith,
  valid-Bounded v n js val,
  one-le (exists (has_key v fetch) js),
  one-le (exists (has_key v asr) js),
)
