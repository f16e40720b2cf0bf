-- ===== src/Service/Untouched.antt =====
-- When a request leaves a row of the `jobs` table alone, and three kinds of rows that stay as
-- they are: leased ones, finished ones, and those of a worker that fell silent on its last attempt.
use qarau.Common.Tables.{In, IsOldest, find, oldest, oldest-IsOldest, update_returning}
use Prim.Native.String.{String}
use mathlib.Core.Bool.{false≢true}
use qarau.Jobs.{
  mark_job_done, mark_job_failed, unlock_job, gave_up, unlocked, claim_job, fetch, asr, finished,
  Job, JobType, get_job, has_id, is_claimable, is_lease, is_typed_lease, claimed,
}
use qarau.Common.{
  ℕ, ◌<◌, ◌≡◌, refl, sym, ap, ◌∙◌, ◌≢◌, inl, inr, Bool, false, Option, none, some, List, [], ◌∷◌,
  arith,
}
use qarau.Jobs.Rows.{get_job-In, get_job-update_where, get_job-id}
use qarau.Jobs.Valid.{mark_job_done-IsValid, IsValid, SameKey, In-unique}
use qarau.Service.Requests.{
  lease, complete_fetch, complete_asr, fail, enqueue, Request, Changed, Inserted, serve, run,
}
use qarau.Service.Refines.{serve-Changed}
use qarau.Service.Valid.{IsValidStore, serve-IsValid}
use qarau.Store.{Store}

-- No statement of the request meets the row in its WHERE clause.
abbrev pub IsUntouched : Request → Job → Type 0
IsUntouched (lease c locked w ty) j = (ty : JobType) → is_claimable ty c.db locked j ≡ false
IsUntouched (complete_fetch c w i v b f) j = is_typed_lease i fetch w j ≡ false
IsUntouched (complete_asr c w i v m ws) j = is_typed_lease i asr w j ≡ false
IsUntouched (fail i w m f) j = is_lease i w j ≡ false
IsUntouched (enqueue v o now) j = Unit {0}

update_returning-untouched :
    (p : Job → Bool) (f : Job → Job) (i : ℕ) (j : Job) (js : List Job) {js' : List Job}
    → ((k : Job) → SameKey k (f k))
    → update_returning p f js ≡ some js'
    → p j ≡ false
    → get_job i js ≡ some j
    → get_job i js' ≡ some j
unfolding update_returning
update_returning-untouched p f i j js {js'} keeps h miss at =
    ground (arith, get_job-update_where p f i js (λ k. (keeps k).0))

mark_job_done-untouched :
    (id : ℕ) (ty : JobType) (w : String) (now i : ℕ) (j : Job) (js : List Job) {js' : List Job}
    → mark_job_done id ty w now js ≡ some js'
    → is_typed_lease id ty w j ≡ false
    → get_job i js ≡ some j
    → get_job i js' ≡ some j
unfolding mark_job_done
mark_job_done-untouched id ty w now i j js =
    update_returning-untouched (is_typed_lease id ty w) (finished now) i j js
      (λ k. (refl, refl, refl))

unlock_job-untouched :
    (m : String) (id : ℕ) (w : String) (i : ℕ) (j : Job) (js : List Job) {js' : List Job}
    → unlock_job m id w js ≡ some js'
    → is_lease id w j ≡ false
    → get_job i js ≡ some j
    → get_job i js' ≡ some j
unfolding unlock_job
unlock_job-untouched m id w i j js =
    update_returning-untouched (is_lease id w) (unlocked m) i j js (λ k. (refl, refl, refl))

mark_job_failed-untouched :
    (m : String) (id : ℕ) (w : String) (i : ℕ) (j : Job) (js : List Job) {js' : List Job}
    → mark_job_failed m id w js ≡ some js'
    → is_lease id w j ≡ false
    → get_job i js ≡ some j
    → get_job i js' ≡ some j
unfolding mark_job_failed
mark_job_failed-untouched m id w i j js =
    update_returning-untouched (is_lease id w) (gave_up m) i j js (λ k. (refl, refl, refl))

id_below : (n : ℕ) (j : Job) (js : List Job) → IsValid n js → In j js → j.id < n
id_below n j [] v m = absurd m
id_below n j (k ∷ ks) v (inl q) = rw q v.1
id_below n j (k ∷ ks) v (inr m) = id_below n j ks v.3 m

claim_job-untouched :
    (ty : JobType) (worker : String) (until now : ℕ) (locked : ℕ → Bool) (n i : ℕ) (j : Job)
    (js : List Job) {k : Job} {js' : List Job}
    → IsValid n js
    → claim_job ty worker until now locked js ≡ some (k, js')
    → is_claimable ty now locked j ≡ false
    → get_job i js ≡ some j
    → (k.id ≢ i) × (get_job i js' ≡ some j)
unfolding claim_job
claim_job-untouched ty worker until now locked n i j js {k} {js'} v h miss at =
    go (oldest Job.created_at (is_claimable ty now locked) js) refl
      (oldest-IsOldest Job.created_at (is_claimable ty now locked) js)
  where
    go :
        (o : Option Job)
        → oldest Job.created_at (is_claimable ty now locked) js ≡ o
        → IsOldest Job.created_at (is_claimable ty now locked) js o
        → (k.id ≢ i) × (get_job i js' ≡ some j)
    go none e old = absurd (ground arith)
    go (some l) e (m, c, least) = (
      other',
      ground (
        arith,
        other,
        get_job-update_where (has_id l.id) (claimed worker until now) i js (λ r. refl),
        get_job-id i js j at,
      ),
    )
      where
        other : l.id ≢ i
        other q = false≢true (
            sym miss
            ∙ ap (is_claimable ty now locked)
                (In-unique n l j js v m (get_job-In i js j at) (get_job-id i js j at ∙ sym q))
            ∙ c)

        other' : k.id ≢ i
        other' q = other (ground arith)

Inserted-untouched :
    (v : ℕ) (ty : JobType) (now : ℕ) (js : List Job) (n : ℕ) (js' : List Job) (n' i : ℕ) (j : Job)
    → IsValid n js
    → Inserted v ty now js n js' n'
    → get_job i js ≡ some j
    → get_job i js' ≡ some j
unfolding get_job find
Inserted-untouched v ty now js n js' n' i j val (online, fresh, rows, next) at =
    rw rows (ground (arith, id_below n j js val (get_job-In i js j at), get_job-id i js j at))

Changed-untouched :
    (r : Request) (js : List Job) (n : ℕ) (js' : List Job) (n' i : ℕ) (j : Job)
    → IsValid n js
    → Changed r js n js' n'
    → IsUntouched r j
    → get_job i js ≡ some j
    → get_job i js' ≡ some j
Changed-untouched (lease c l w ty) js n js' n' i j v (e, inl q) u at = rw q at
Changed-untouched (lease c l w ty) js n js' n' i j v (e, inr (t, until, k, q)) u at =
    (claim_job-untouched t w until c.db l n i j js v q (u t) at).1
Changed-untouched (complete_fetch c w k x b f) js n js' n' i j v (inl (e, q)) u at = rw q at
Changed-untouched (complete_fetch c w k x b f) js n js' n' i j v (inr (o, mid, q, src, made)) u at =
    Inserted-untouched o.video_id asr c.db mid n js' n' i j
      (mark_job_done-IsValid k fetch w c.db n js q v) made
      (mark_job_done-untouched k fetch w c.db i j js q u at)
Changed-untouched (complete_asr c w k x m ws) js n js' n' i j v (e, inl q) u at = rw q at
Changed-untouched (complete_asr c w k x m ws) js n js' n' i j v (e, inr q) u at =
    mark_job_done-untouched k asr w c.db i j js q u at
Changed-untouched (fail k w m f) js n js' n' i j v (e, inl q) u at = rw q at
Changed-untouched (fail k w m f) js n js' n' i j v (e, inr (inl q)) u at =
    unlock_job-untouched m k w i j js q u at
Changed-untouched (fail k w m f) js n js' n' i j v (e, inr (inr q)) u at =
    mark_job_failed-untouched m k w i j js q u at
Changed-untouched (enqueue x o now) js n js' n' i j v (inl (e, q)) u at = rw q at
Changed-untouched (enqueue x o now) js n js' n' i j v (inr made) u at =
    Inserted-untouched x fetch now js n js' n' i j v made at

abbrev pub AllUntouched : Job → List Request → Type 0
AllUntouched j [] = Unit {0}
AllUntouched j (r ∷ rs) = IsUntouched r j × AllUntouched j rs

pub serve-untouched :
    (r : Request) (s : Store) (i : ℕ) (j : Job)
    → IsValidStore s
    → IsUntouched r j
    → get_job i s.jobs ≡ some j
    → get_job i (serve r s).jobs ≡ some j
serve-untouched r s i j v u at =
    Changed-untouched r s.jobs s.next_job (serve r s).jobs (serve r s).next_job i j v
      (serve-Changed r s) u at

pub run-untouched :
    (s : Store) (rs : List Request) (i : ℕ) (j : Job)
    → IsValidStore s
    → AllUntouched j rs
    → get_job i s.jobs ≡ some j
    → get_job i (run s rs).jobs ≡ some j
unfolding run
run-untouched s [] i j v u at = at
run-untouched s (r ∷ rs) i j v u at =
    run-untouched (serve r s) rs i j (serve-IsValid r s v) u.1 (serve-untouched r s i j v u.0 at)
