-- ===== src/Service/Transactions.antt =====
-- The transactions of Service.antt and Transcript.antt, statement by statement, on the jobs: one
-- rule for `>>=`.
use qarau.Common.Tables.{find}
use qarau.Common.Int.{ℤ}
use Prim.Native.String.{String}
use qarau.Common.{
  none, ap, Option, inr, ◌∙◌, Bool-cases, inl, ℕ, ◌+◌, ◌≡◌, refl, List, [], ◌∷◌, some, arith,
}
use qarau.Common.Result.{no_rows, Result, ok, err}
use qarau.Words.{Word}
use qarau.Jobs.{Job, JobType, fetch, asr, mark_job_done, has_key, new_job}
use qarau.Store.{
  is_fetch_job, create_asr_job, insert_job, delete_sentences, create_audio_blob, delete_words,
  upsert_transcription, upsert_asr_quota, complete_job, Tx, Store, ◌>>=◌, exists,
}
use qarau.Transcript.{store_words, store_transcription}
use qarau.Service.{quota_day, Clock, complete_fetch_job}
use qarau.Service.Requests.{after, Inserted, Leaves}

pub Leaves-bind :
    {A B : Type 0} (m : Tx A) (f : A → Tx B) (P Q : Store → Type 0) (s : Store)
    → Leaves (m s) P
    → ((a : A) (t : Store) → P t → Leaves (f a t) Q)
    → Leaves ((m >>= f) s) Q
Leaves-bind {A} m f P Q s h next = go (m s) h
  where
    go :
        (r : Result (A × Store))
        → Leaves r P
        → Leaves (elim r [ err e ↦ err e | ok (a, t) ↦ f a t ]) Q
    go (ok (a, t)) l = next a t l
    go (err e) l = tt

pub after-Leaves :
    {A : Type 0} (P : Store → Type 0) (s : Store) (r : Result (A × Store))
    → Leaves r P
    → P s
    → P (after s r)
after-Leaves P s (ok (a, t)) l h = l
after-Leaves P s (err e) l h = h

-- The jobs are as they were.
abbrev pub Same : Store → Store → Type 0
Same s t = (t.next_job ≡ s.next_job) × (t.jobs ≡ s.jobs)

pub create_audio_blob-Same :
    (v : ℕ) (b : List ℕ) (f : List ℕ) (s t : Store)
    → Same s t
    → Leaves (create_audio_blob v b f t) (Same s)
unfolding create_audio_blob
create_audio_blob-Same v b f s t h = ground arith

pub upsert_transcription-Same :
    (v : ℕ) (m : String) (s t : Store) → Same s t → Leaves (upsert_transcription v m t) (Same s)
unfolding upsert_transcription
upsert_transcription-Same v m s t h = ground arith

pub store_words-Same :
    (i : ℕ) (ws : List Word) (s t : Store) → Same s t → Leaves (store_words i ws t) (Same s)
unfolding store_words
store_words-Same i [] s t h = h
store_words-Same i (w ∷ ws) s t h = ground arith

-- The jobs after the job of a lease is marked done.
abbrev pub Marked : ℕ → JobType → String → ℕ → Store → Store → Type 0
Marked i ty w now s t = (t.next_job ≡ s.next_job) × (mark_job_done i ty w now s.jobs ≡ some t.jobs)

pub complete_job-Marked :
    (i : ℕ) (ty : JobType) (w : String) (now : ℕ) (s t : Store)
    → Same s t
    → Leaves (complete_job i ty w now t) (Marked i ty w now s)
unfolding complete_job
complete_job-Marked i ty w now s t h = ground arith

pub upsert_asr_quota-Marked :
    (day : ℕ) (used : ℤ) (i : ℕ) (ty : JobType) (w : String) (now : ℕ) (s t : Store)
    → Marked i ty w now s t
    → Leaves (upsert_asr_quota day used t) (Marked i ty w now s)
unfolding upsert_asr_quota
upsert_asr_quota-Marked day used i ty w now s t h = ground arith

pub store_transcription-Marked :
    (c : Clock) (w : String) (i v : ℕ) (m : String) (ws : List Word) (used : ℤ) (s : Store)
    → Leaves (store_transcription c w i v m ws used s) (Marked i asr w c.db s)
unfolding store_transcription delete_words delete_sentences
store_transcription-Marked c w i v m ws used s =
    Leaves-bind (upsert_transcription v m) _ (Same s) _ s
      (upsert_transcription-Same v m s s (refl, refl))
      λ id t h.
        Leaves-bind (store_words id ws) _ (Same s) _ _ (store_words-Same id ws s _ h) λ _ t2 h2.
          Leaves-bind (complete_job i asr w c.db) _ (Marked i asr w c.db s) _ t2
            (complete_job-Marked i asr w c.db s t2 h2)
            λ _ t3 h3.
              Leaves-bind (upsert_asr_quota (quota_day c.app) used) _ (Marked i asr w c.db s) _ t3
                (upsert_asr_quota-Marked (quota_day c.app) used i asr w c.db s t3 h3) λ _ t4 h4. h4

pub insert_job-Inserted :
    (v : ℕ) (ty : JobType) (online : String) (now : ℕ) (t : Store)
    → Leaves
        (insert_job v ty online now t)
        (λ u. Inserted v ty now t.jobs t.next_job u.jobs u.next_job)
unfolding insert_job
insert_job-Inserted v ty online now t = elim (Bool-cases (exists (has_key v ty) t.jobs)) [
  | inl e ↦ rw e tt
  | inr e ↦ rw e (online, refl, refl, refl)
]

-- The jobs of the store `u` are those of `t` and the ASR job of one of its rows.
abbrev pub Followed : ℕ → ℕ → Store → Store → Type 0
Followed i now t u =
    (of : Job) × (find (is_fetch_job i) t.jobs ≡ some of)
    × Inserted of.video_id asr now t.jobs t.next_job u.jobs u.next_job

pub create_asr_job-Followed :
    (i now : ℕ) (t : Store) → Leaves (create_asr_job i now t) (Followed i now t)
unfolding create_asr_job insert_job
create_asr_job-Followed i now t = go (find (is_fetch_job i) t.jobs) refl
  where
    weaken :
        (of : Job) (r : Result (ℕ × Store))
        → find (is_fetch_job i) t.jobs ≡ some of
        → Leaves r (λ u. Inserted of.video_id asr now t.jobs t.next_job u.jobs u.next_job)
        → Leaves r (Followed i now t)
    weaken of (ok (a, u)) e l = (of, e, l)
    weaken of (err x) e l = tt

    go :
        (o : Option Job)
        → find (is_fetch_job i) t.jobs ≡ o
        → Leaves
            (elim o [
              | none ↦ err no_rows
              | some j ↦ insert_job j.video_id asr j.online_video_id now t
            ])
            (Followed i now t)
    go none e = tt
    go (some j) e =
        weaken j (insert_job j.video_id asr j.online_video_id now t) e
          (insert_job-Inserted j.video_id asr j.online_video_id now t)

abbrev pub FetchDone : ℕ → String → ℕ → Store → Store → Type 0
FetchDone i w now s u =
    (of : Job) × (mid : List Job) × (mark_job_done i fetch w now s.jobs ≡ some mid)
    × (find (is_fetch_job i) mid ≡ some of)
    × Inserted of.video_id asr now mid s.next_job u.jobs u.next_job

pub complete_fetch_job-FetchDone :
    (c : Clock) (w : String) (i v : ℕ) (b : List ℕ) (f : List ℕ) (s : Store)
    → Leaves (complete_fetch_job c w i v b f s) (FetchDone i w c.db s)
unfolding complete_fetch_job
complete_fetch_job-FetchDone c w i v b f s =
    Leaves-bind (create_audio_blob v b f) _ (Same s) _ s
      (create_audio_blob-Same v b f s s (refl, refl))
      λ _ t h.
        Leaves-bind (complete_job i fetch w c.db) _ (Marked i fetch w c.db s) _ t
          (complete_job-Marked i fetch w c.db s t h)
          λ _ t2 h2.
            Leaves-bind (create_asr_job i c.db) _ (Followed i c.db t2) _ t2
              (create_asr_job-Followed i c.db t2) λ _ t3 h3. finish t2 t3 h2 h3
  where
    finish :
        (t2 t3 : Store)
        → Marked i fetch w c.db s t2
        → Followed i c.db t2 t3
        → FetchDone i w c.db s t3
    finish t2 t3 (same, marked) (of, at, (online, fresh, rows, next)) = (
      of,
      t2.jobs,
      marked,
      at,
      (
        online,
        fresh,
        rows ∙ ap (λ n. new_job n of.video_id asr online c.db ∷ t2.jobs) same,
        next ∙ ap (λ n. n + 1) same,
      ),
    )
