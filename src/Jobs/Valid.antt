-- ===== src/Jobs/Valid.antt =====
-- What holds of the `jobs` table between two statements, and that each statement keeps it.
use qarau.Common.Tables.{
  In, IsOldest, oldest, oldest-IsOldest, touched, update_returning, update_where,
}
use qarau.Common.{
  arith, subst, ap, ℕ, ◌≤◌, ◌<◌, ◌≡◌, refl, sym, ◌∙◌, Bool, true, false, Option, none, some, List,
  [], ◌∷◌, Bool-cases, inl, inr, ◌⊎◌, ◌≢◌,
}
use Prim.Native.String.{String}
use qarau.Jobs.{
  has_id, unlocked, gave_up, finished, claimed, is_lease, is_typed_lease, mark_job_failed,
  claim_job, JobType, is_claimable, mark_job_done, unlock_job, Job, JobState, pending, running,
  done, failed, has_key,
}

-- A running or done job has an owner and an end of its lease; a pending or failed one has none.
abbrev pub IsLocked : JobState → Option String → Option ℕ → Type 0
IsLocked running (some w) (some t) = Unit {0}
IsLocked done (some w) (some t) = Unit {0}
IsLocked pending none none = Unit {0}
IsLocked failed none none = Unit {0}
IsLocked _ _ _ = ⊥

pub record IsSound (j : Job) : Type 0 where
  pub lock : IsLocked j.state j.locked_by j.locked_until
  pub capped : j.attempts ≤ j.max_attempts
  pub tried : j.state ≡ running → 0 < j.attempts

-- No row of the list has the id, or the video and type, of the job.
abbrev pub IsNew : Job → List Job → Type 0
IsNew j [] = Unit {0}
IsNew j (k ∷ ks) = (k.id ≢ j.id) × (has_key j.video_id j.job_type k ≡ false) × IsNew j ks

-- The rows are sound, their ids are distinct and below the next id, and no two share video and
-- type.
abbrev pub IsValid : ℕ → List Job → Type 0
IsValid next [] = Unit {0}
IsValid next (j ∷ js) = IsSound j × (j.id < next) × IsNew j js × IsValid next js

-- What no statement writes.
abbrev pub SameKey : Job → Job → Type 0
SameKey j k = (k.id ≡ j.id) × (k.video_id ≡ j.video_id) × (k.job_type ≡ j.job_type)

pub touched-SameKey :
    (p : Job → Bool) (f : Job → Job) (j : Job) → SameKey j (f j) → SameKey j (touched p f j)
touched-SameKey p f j h = elim (Bool-cases (p j)) [
  | inl e ↦ rw e h
  | inr e ↦ rw e (refl, refl, refl)
]

IsNew-SameKey : (j k : Job) (js : List Job) → SameKey j k → IsNew j js → IsNew k js
IsNew-SameKey j k [] same new = tt
IsNew-SameKey j k (i ∷ is) (a, b, c) (x, y, z) =
    (λ e. x (e ∙ a), rw (b, c) y, IsNew-SameKey j k is (a, b, c) z)

IsNew-update_where :
    (p : Job → Bool) (f : Job → Job) (j : Job) (js : List Job)
    → ((k : Job) → SameKey k (f k))
    → IsNew j js
    → IsNew j (update_where p f js)
unfolding update_where
IsNew-update_where p f j [] keeps new = tt
IsNew-update_where p f j (k ∷ ks) keeps (x, y, z) =
    let (a, b, c) = touched-SameKey p f k (keeps k) in
    (λ e. x (sym a ∙ e), rw (b, c) y, IsNew-update_where p f j ks keeps z)

-- An update keeps the table valid if it keeps the rows sound that it meets.
pub update_where-IsValid :
    (p : Job → Bool) (f : Job → Job) (next : ℕ) (js : List Job)
    → ((k : Job) → SameKey k (f k))
    → ((k : Job) → In k js → p k ≡ true → IsSound k → IsSound (f k))
    → IsValid next js
    → IsValid next (update_where p f js)
unfolding update_where
update_where-IsValid p f next [] keeps sound v = tt
update_where-IsValid p f next (j ∷ js) keeps sound (s, lt, new, v) = (
  head (Bool-cases (p j)),
  rw (same.0) lt,
  IsNew-SameKey j (touched p f j) _ same (IsNew-update_where p f j js keeps new),
  update_where-IsValid p f next js keeps (λ k m. sound k (inr m)) v,
)
  where
    same : SameKey j (touched p f j)
    same = touched-SameKey p f j (keeps j)

    head : (p j ≡ true) ⊎ (p j ≡ false) → IsSound (touched p f j)
    head (inl e) = rw e (sound j (inl refl) e s)
    head (inr e) = rw e s

In-IsNew : (j k : Job) (js : List Job) → In k js → IsNew j js → k.id ≢ j.id
In-IsNew j k [] m new = absurd m
In-IsNew j k (i ∷ is) (inl q) (x, y, z) = λ e. x (ap Job.id (sym q) ∙ e)
In-IsNew j k (i ∷ is) (inr m) (x, y, z) = In-IsNew j k is m z

pub In-IsSound : (next : ℕ) (j : Job) (js : List Job) → In j js → IsValid next js → IsSound j
In-IsSound next j [] m v = absurd m
In-IsSound next j (k ∷ ks) (inl q) v = subst IsSound (sym q) v.0
In-IsSound next j (k ∷ ks) (inr m) v = In-IsSound next j ks m v.3

-- An id names one row.
pub In-unique :
    (next : ℕ) (j k : Job) (js : List Job)
    → IsValid next js
    → In j js
    → In k js
    → k.id ≡ j.id
    → k ≡ j
In-unique next j k [] v m n e = absurd m
In-unique next j k (i ∷ is) v (inl p) (inl q) e = q ∙ sym p
In-unique next j k (i ∷ is) v (inl p) (inr n) e = absurd (In-IsNew i k is n v.2 (e ∙ ap Job.id p))
In-unique next j k (i ∷ is) v (inr m) (inl q) e =
    absurd (In-IsNew i j is m v.2 (sym e ∙ ap Job.id q))
In-unique next j k (i ∷ is) v (inr m) (inr n) e = In-unique next j k is v.3 m n e

claimed-IsSound :
    (worker : String) (until now : ℕ) (ty : JobType) (locked : ℕ → Bool) (j : Job)
    → is_claimable ty now locked j ≡ true
    → IsSound (claimed worker until now j)
unfolding is_claimable
claimed-IsSound worker until now ty locked j h = record {
  lock = tt;
  capped = ground arith;
  tried = λ e. omega arith;
}

-- ClaimJob keeps the table valid.
pub claim_job-IsValid :
    (ty : JobType) (worker : String) (until now : ℕ) (locked : ℕ → Bool) (next : ℕ) (js : List Job)
    {j : Job} {js' : List Job}
    → claim_job ty worker until now locked js ≡ some (j, js')
    → IsValid next js
    → IsValid next js'
unfolding claim_job
claim_job-IsValid ty worker until now locked next js {j} {js'} h v =
    go (oldest Job.created_at (is_claimable ty now locked) js) refl
      (oldest-IsOldest Job.created_at (is_claimable ty now locked) js)
  where
    go :
        (o : Option Job)
        → oldest Job.created_at (is_claimable ty now locked) js ≡ o
        → IsOldest Job.created_at (is_claimable ty now locked) js o
        → IsValid next js'
    go none e old = absurd (ground arith)
    go (some i) e (m, c, least) = subst (IsValid next) (ground arith) (
        update_where-IsValid (has_id i.id) (claimed worker until now) next js
          (λ k. (refl, refl, refl))
          (λ k n t s.
            subst (λ r. IsSound (claimed worker until now r))
              (sym (In-unique next i k js v m n (ground arith)))
              (claimed-IsSound worker until now ty locked i c))
          v)

update_returning-IsValid :
    (p : Job → Bool) (f : Job → Job) (next : ℕ) (js : List Job) {js' : List Job}
    → ((k : Job) → SameKey k (f k))
    → ((k : Job) → p k ≡ true → IsSound k → IsSound (f k))
    → update_returning p f js ≡ some js'
    → IsValid next js
    → IsValid next js'
unfolding update_returning
update_returning-IsValid p f next js {js'} keeps sound h v =
    subst (IsValid next) (ground arith) (update_where-IsValid p f next js keeps (λ k m. sound k) v)

finished-IsSound :
    (id now : ℕ) (ty : JobType) (worker : String) (j : Job)
    → is_typed_lease id ty worker j ≡ true
    → IsSound j
    → IsSound (finished now j)
finished-IsSound id now ty worker j h s = record {
  lock = ground arith;
  capped = s.capped;
  tried = λ e. cc;
}

pub mark_job_done-IsValid :
    (id : ℕ) (ty : JobType) (worker : String) (now next : ℕ) (js : List Job) {js' : List Job}
    → mark_job_done id ty worker now js ≡ some js'
    → IsValid next js
    → IsValid next js'
unfolding mark_job_done
mark_job_done-IsValid id ty worker now next js h v =
    update_returning-IsValid (is_typed_lease id ty worker) (finished now) next js
      (λ k. (refl, refl, refl)) (λ k. finished-IsSound id now ty worker k) h v

pub mark_job_failed-IsValid :
    (message : String) (id : ℕ) (worker : String) (next : ℕ) (js : List Job) {js' : List Job}
    → mark_job_failed message id worker js ≡ some js'
    → IsValid next js
    → IsValid next js'
unfolding mark_job_failed
mark_job_failed-IsValid message id worker next js h v =
    update_returning-IsValid (is_lease id worker) (gave_up message) next js
      (λ k. (refl, refl, refl)) (λ k p s. record { lock = tt; capped = s.capped; tried = λ e. cc })
      h v

pub unlock_job-IsValid :
    (message : String) (id : ℕ) (worker : String) (next : ℕ) (js : List Job) {js' : List Job}
    → unlock_job message id worker js ≡ some js'
    → IsValid next js
    → IsValid next js'
unfolding unlock_job
unlock_job-IsValid message id worker next js h v =
    update_returning-IsValid (is_lease id worker) (unlocked message) next js
      (λ k. (refl, refl, refl)) (λ k p s. record { lock = tt; capped = s.capped; tried = λ e. cc })
      h v
