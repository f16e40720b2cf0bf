-- ===== src/Service/Leases.antt =====
-- What a lease guarantees to its worker, and the rows that no request changes any more.
use Prim.Native.String.{String}
use text.Mathlib.TextEquality.{eq_iff}
use qarau.Common.{ℕ, ◌≤◌, ◌≡◌, sym, ◌≢◌, ◌⊎◌, inl, inr, Bool, false, some, List, [], ◌∷◌, arith}
use qarau.Jobs.{Job, JobType, running, done, failed, get_job, is_claimable, is_lease}
use qarau.Jobs.Rows.{get_job-id}
use qarau.Service.Requests.{Request, lease, complete_fetch, complete_asr, fail, enqueue, run}
use qarau.Service.Valid.{IsValidStore}
use qarau.Service.Untouched.{IsUntouched, AllUntouched, run-untouched}
use qarau.Store.{Store}

abbrev pub IsLeasedTo : String → ℕ → Job → Type 0
IsLeasedTo w t j = (j.state ≡ running) × (j.locked_by ≡ some w) × (j.locked_until ≡ some t)

-- The requests that are not the worker's own end of the job: of others, or about other jobs.
abbrev pub IsForeign : ℕ → String → ℕ → String → Type 0
IsForeign i w k v = (k ≢ i) ⊎ (v ≢ w)

-- No lease is asked for after the time t on the database's clock, and the worker w itself neither
-- completes nor fails the job i.
abbrev pub Respects : ℕ → String → ℕ → Request → Type 0
Respects i w t (lease c locked v ty) = c.db ≤ t
Respects i w t (complete_fetch c v k x b f) = IsForeign i w k v
Respects i w t (complete_asr c v k x m ws) = IsForeign i w k v
Respects i w t (fail k v m f) = IsForeign i w k v
Respects i w t (enqueue x o now) = Unit {0}

abbrev pub AllRespect : ℕ → String → ℕ → List Request → Type 0
AllRespect i w t [] = Unit {0}
AllRespect i w t (r ∷ rs) = Respects i w t r × AllRespect i w t rs

is_lease_foreign :
    (i : ℕ) (w : String) (k : ℕ) (v : String) (j : Job)
    → j.id ≡ i
    → j.locked_by ≡ some w
    → IsForeign i w k v
    → is_lease k v j ≡ false
is_lease_foreign i w k v j at held (inl other) = ground (arith, other)
is_lease_foreign i w k v j at held (inr other) =
    ground (arith, eq_iff w v, λ (e : w ≡ v). other (sym e))

claimable_leased :
    (ty : JobType) (now : ℕ) (locked : ℕ → Bool) (w : String) (t : ℕ) (j : Job)
    → IsLeasedTo w t j
    → now ≤ t
    → is_claimable ty now locked j ≡ false
unfolding is_claimable
claimable_leased ty now locked w t j h le = ground arith

Respects-IsUntouched :
    (i : ℕ) (w : String) (t : ℕ) (r : Request) (j : Job)
    → j.id ≡ i
    → IsLeasedTo w t j
    → Respects i w t r
    → IsUntouched r j
Respects-IsUntouched i w t (lease c locked v ty) j at h r =
    λ ty'. claimable_leased ty' c.db locked w t j h r
Respects-IsUntouched i w t (complete_fetch c v k x b f) j at h r =
    ground (arith, is_lease_foreign i w k v j at h.1 r)
Respects-IsUntouched i w t (complete_asr c v k x m ws) j at h r =
    ground (arith, is_lease_foreign i w k v j at h.1 r)
Respects-IsUntouched i w t (fail k v m f) j at h r = is_lease_foreign i w k v j at h.1 r
Respects-IsUntouched i w t (enqueue x o now) j at h r = tt

AllRespect-AllUntouched :
    (i : ℕ) (w : String) (t : ℕ) (rs : List Request) (j : Job)
    → j.id ≡ i
    → IsLeasedTo w t j
    → AllRespect i w t rs
    → AllUntouched j rs
AllRespect-AllUntouched i w t [] j at h r = tt
AllRespect-AllUntouched i w t (q ∷ qs) j at h r =
    (Respects-IsUntouched i w t q j at h r.0, AllRespect-AllUntouched i w t qs j at h r.1)

-- While a worker's lease runs, the row of its job stays exactly as it is: let the jobs table be
-- valid and the row of the id i be running, leased to the worker w until the time t. Then after
-- any sequence of requests in which no lease is asked for later than t by the database's clock,
-- and w itself neither completes nor fails job i, the row is the same.
pub lease_kept :
    (s : Store) (rs : List Request) (i : ℕ) (w : String) (t : ℕ) (j : Job)
    → IsValidStore s
    → get_job i s.jobs ≡ some j
    → IsLeasedTo w t j
    → AllRespect i w t rs
    → get_job i (run s rs).jobs ≡ some j
lease_kept s rs i w t j v at h r =
    run-untouched s rs i j v (AllRespect-AllUntouched i w t rs j (get_job-id i s.jobs j at) h r) at

-- From a database whose jobs table is valid, the row of a job that is done or failed stays as it is
-- under any sequence of requests.
pub finished_kept :
    (s : Store) (rs : List Request) (i : ℕ) (j : Job)
    → IsValidStore s
    → get_job i s.jobs ≡ some j
    → (j.state ≡ done) ⊎ (j.state ≡ failed)
    → get_job i (run s rs).jobs ≡ some j
finished_kept s rs i j v at h = run-untouched s rs i j v (all rs) at
  where
    one : (r : Request) → IsUntouched r j
    one (lease c locked w ty) = λ ty'. unfold is_claimable in ground arith
    one (complete_fetch c w k x b f) = ground arith
    one (complete_asr c w k x m ws) = ground arith
    one (fail k w m f) = ground arith
    one (enqueue x o now) = tt

    all : (rs : List Request) → AllUntouched j rs
    all [] = tt
    all (r ∷ rs) = (one r, all rs)

-- The requests by which the worker w ends job i are missing.
abbrev pub IsSilent : ℕ → String → Request → Type 0
IsSilent i w (lease c locked v ty) = Unit {0}
IsSilent i w (complete_fetch c v k x b f) = IsForeign i w k v
IsSilent i w (complete_asr c v k x m ws) = IsForeign i w k v
IsSilent i w (fail k v m f) = IsForeign i w k v
IsSilent i w (enqueue x o now) = Unit {0}

abbrev pub AllSilent : ℕ → String → List Request → Type 0
AllSilent i w [] = Unit {0}
AllSilent i w (r ∷ rs) = IsSilent i w r × AllSilent i w rs

-- A job whose worker falls silent on the last attempt is stranded: let the jobs table be valid
-- and the row of the id i be running with all its attempts used, owned by the worker w. If w
-- sends no completion and no failure of job i, then the row stays running after any sequence of
-- requests, at whatever time they come: no lease takes it over, and nothing marks it failed.
pub stranded :
    (s : Store) (rs : List Request) (i : ℕ) (w : String) (j : Job)
    → IsValidStore s
    → get_job i s.jobs ≡ some j
    → j.state ≡ running
    → j.locked_by ≡ some w
    → j.attempts ≡ j.max_attempts
    → AllSilent i w rs
    → get_job i (run s rs).jobs ≡ some j
stranded s rs i w j v at runs held spent silent = run-untouched s rs i j v (all rs silent) at
  where
    owner : (k : ℕ) (u : String) → IsForeign i w k u → is_lease k u j ≡ false
    owner k u = is_lease_foreign i w k u j (get_job-id i s.jobs j at) held

    one : (r : Request) → IsSilent i w r → IsUntouched r j
    one (lease c locked u ty) q = λ ty'. unfold is_claimable in ground arith
    one (complete_fetch c u k x b f) q = ground (arith, owner k u q)
    one (complete_asr c u k x m ws) q = ground (arith, owner k u q)
    one (fail k u m f) q = owner k u q
    one (enqueue x o now) q = tt

    all : (rs : List Request) → AllSilent i w rs → AllUntouched j rs
    all [] q = tt
    all (r ∷ rs) q = (one r q.0, all rs q.1)
