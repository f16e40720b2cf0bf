-- ===== src/Service/Stored.antt =====
-- What a stored transcription leaves in the tables of words, sentences, jobs and quota.
use qarau.Service.Numbered.{
  IsNamed, AreNumbered, to_word_rows-AreNumbered, upsert_transcription-IsNamed,
}
use qarau.Service.Replaced.{
  delete_where_again, delete_where-append, delete_where_rest, set_quota-get_asr_quota, own_rows,
  Returns-bind, is_sentence_of, Returns, is_word_of,
}
use Prim.Native.String.{String}
use mathlib.Core.List.{append-nil}
use qarau.Common.{
  subst, ℕ, ◌≡◌, refl, sym, ap, ◌∙◌, Bool, not, some, List, [], ◌∷◌, ◌++◌, Bool-cases, inl, inr,
  arith,
}
use qarau.Common.Int.{ℤ, ◌+ℤ◌}
use qarau.Common.Result.{Result, ok, err}
use qarau.Words.{Word}
use qarau.Jobs.{asr, mark_job_done}
use qarau.Store.{
  delete_sentences, delete_words, is_percent, is_int32, Store, WordRow, delete_where, insert_words,
  complete_job, upsert_transcription, upsert_asr_quota, get_asr_quota, or_zero, exists,
}
use qarau.Transcript.{
  get_video_duration, complete_asr_job, store_transcription, to_word_rows, store_words,
}
use qarau.Service.{Clock, quota_day}

-- The words and sentences of the transcription `id` are replaced, and those of others kept.
abbrev IsReplaced : Store → ℕ → List Word → Store → Type 0
IsReplaced s id ws t =
    (t.words ≡ delete_where (is_word_of id) s.words ++ to_word_rows id 0 ws)
    × (t.sentences ≡ delete_where (is_sentence_of id) s.sentences)

insert_words-Returns :
    (rows : List WordRow) (t : Store)
    → Returns (insert_words rows t) (λ _ u.
      (u.words ≡ t.words ++ rows)
      × (u.sentences ≡ t.sentences)
      × (u.jobs ≡ t.jobs)
      × (u.quota ≡ t.quota)
      × (u.transcriptions ≡ t.transcriptions))
unfolding insert_words
insert_words-Returns rows t = elim (Bool-cases (exists (λ w. not (is_percent w)) rows)) [
  | inl e ↦ rw e tt
  | inr e ↦ rw e (refl, refl, refl, refl, refl)
]

Returns-map :
    {A : Type 0} (r : Result (A × Store)) (P Q : A → Store → Type 0)
    → ((a : A) (t : Store) → P a t → Q a t)
    → Returns r P
    → Returns r Q
Returns-map (ok (a, t)) P Q f h = f a t h
Returns-map (err e) P Q f h = tt

store_words-IsReplaced :
    (s : Store) (id : ℕ) (ws : List Word) (t : Store)
    → t.words ≡ delete_where (is_word_of id) s.words
    → t.sentences ≡ delete_where (is_sentence_of id) s.sentences
    → Returns (store_words id ws t) (λ _ u.
      IsReplaced s id ws u
      × (u.jobs ≡ t.jobs)
      × (u.quota ≡ t.quota)
      × (u.transcriptions ≡ t.transcriptions))
unfolding store_words to_word_rows
store_words-IsReplaced s id [] t h k = ((h ∙ sym (append-nil _), k), refl, refl, refl)
store_words-IsReplaced s id (w ∷ ws) t h k =
    Returns-map (insert_words (to_word_rows id 0 (w ∷ ws)) t) _ _
      (λ _ u l. ((l.0 ∙ ap (λ q. q ++ to_word_rows id 0 (w ∷ ws)) h, l.1 ∙ k), l.2, l.3, l.4))
      (insert_words-Returns (to_word_rows id 0 (w ∷ ws)) t)

complete_job-Returns :
    (job : ℕ) (w : String) (now : ℕ) (t : Store)
    → Returns (complete_job job asr w now t) (λ _ u.
      (u.words ≡ t.words)
      × (u.sentences ≡ t.sentences)
      × (u.quota ≡ t.quota)
      × (u.transcriptions ≡ t.transcriptions)
      × (mark_job_done job asr w now t.jobs ≡ some u.jobs))
unfolding complete_job
complete_job-Returns job w now t = ground arith

upsert_asr_quota-Returns :
    (day : ℕ) (used : ℤ) (t : Store)
    → Returns (upsert_asr_quota day used t) (λ _ u.
      (u.words ≡ t.words)
      × (u.sentences ≡ t.sentences)
      × (u.jobs ≡ t.jobs)
      × (u.transcriptions ≡ t.transcriptions)
      × (get_asr_quota day u.quota ≡ some (or_zero (get_asr_quota day t.quota) +ℤ used)))
unfolding upsert_asr_quota
upsert_asr_quota-Returns day used t =
    let total : ℤ = or_zero (get_asr_quota day t.quota) +ℤ used in
    elim (Bool-cases (is_int32 total)) [
      | inl e ↦ rw e (refl, refl, refl, refl, set_quota-get_asr_quota day total t.quota)
      | inr e ↦ rw e tt
    ]

-- The tables after CompleteAsrJob, from the store `s` to the store `t`.
pub record IsTranscribed (c : Clock) (w : String) (job video : ℕ) (model : String) (ws : List Word)
    (used : ℤ) (s : Store) (id : ℕ) (t : Store) : Type 0 where
  pub named : IsNamed video model s.transcriptions id t.transcriptions
  pub own_words : AreNumbered id 0 ws (delete_where (λ r. not (is_word_of id r)) t.words)
  pub other_words : delete_where (is_word_of id) t.words ≡ delete_where (is_word_of id) s.words
  pub own_sentences : delete_where (λ r. not (is_sentence_of id r)) t.sentences ≡ []
  pub other_sentences :
      delete_where (is_sentence_of id) t.sentences ≡ delete_where (is_sentence_of id) s.sentences
  pub marked : mark_job_done job asr w c.db s.jobs ≡ some t.jobs
  pub charged :
      get_asr_quota (quota_day c.app) t.quota
      ≡ some (or_zero (get_asr_quota (quota_day c.app) s.quota) +ℤ used)

IsReplaced-rows :
    (s : Store) (id : ℕ) (ws : List Word) (t : Store)
    → IsReplaced s id ws t
    → (delete_where (λ r. not (is_word_of id r)) t.words ≡ to_word_rows id 0 ws)
      × (delete_where (is_word_of id) t.words ≡ delete_where (is_word_of id) s.words)
IsReplaced-rows s id ws t (words, sentences) =
    let (gone, kept) = own_rows id 0 ws in
    let not_of : WordRow → Bool = λ r. not (is_word_of id r) in
    (
      ap (delete_where not_of) words
          ∙ delete_where-append not_of (delete_where (is_word_of id) s.words) (to_word_rows id 0 ws)
          ∙ ap (λ q. q ++ delete_where not_of (to_word_rows id 0 ws))
              (delete_where_rest (is_word_of id) s.words)
          ∙ kept,
      ap (delete_where (is_word_of id)) words
          ∙ delete_where-append (is_word_of id) (delete_where (is_word_of id) s.words)
              (to_word_rows id 0 ws)
          ∙ ap (λ q. delete_where (is_word_of id) (delete_where (is_word_of id) s.words) ++ q) gone
          ∙ append-nil _
          ∙ delete_where_again (is_word_of id) s.words,
    )

store_transcription-IsTranscribed :
    (c : Clock) (w : String) (job video : ℕ) (model : String) (ws : List Word) (used : ℤ)
    (s : Store)
    → Returns
        (store_transcription c w job video model ws used s)
        (IsTranscribed c w job video model ws used s)
unfolding store_transcription delete_words delete_sentences
store_transcription-IsTranscribed c w job video model ws used s =
    Returns-bind (upsert_transcription video model) _
      (λ id t.
        IsNamed video model s.transcriptions id t.transcriptions
        × (t.words ≡ s.words)
        × (t.sentences ≡ s.sentences)
        × (t.jobs ≡ s.jobs)
        × (t.quota ≡ s.quota))
      _ s (upsert_transcription-IsNamed video model s)
      λ id t1 (named, words1, sentences1, jobs1, quota1).
        Returns-bind (store_words id ws) _
          (λ _ t.
            IsReplaced s id ws t
            × (t.jobs ≡ t1.jobs)
            × (t.quota ≡ t1.quota)
            × (t.transcriptions ≡ t1.transcriptions))
          _ _
          (store_words-IsReplaced s id ws _ (ap (delete_where (is_word_of id)) words1)
            (ap (delete_where (is_sentence_of id)) sentences1))
          λ _ t2 (replaced, jobs2, quota2, names2).
            Returns-bind (complete_job job asr w c.db) _
              (λ _ u.
                (u.words ≡ t2.words)
                × (u.sentences ≡ t2.sentences)
                × (u.quota ≡ t2.quota)
                × (u.transcriptions ≡ t2.transcriptions)
                × (mark_job_done job asr w c.db t2.jobs ≡ some u.jobs))
              _ t2 (complete_job-Returns job w c.db t2)
              λ _ t3 (words3, sentences3, quota3, names3, marked3).
                Returns-bind (upsert_asr_quota (quota_day c.app) used) _
                  (λ _ u.
                    (u.words ≡ t3.words)
                    × (u.sentences ≡ t3.sentences)
                    × (u.jobs ≡ t3.jobs)
                    × (u.transcriptions ≡ t3.transcriptions)
                    × (get_asr_quota (quota_day c.app) u.quota
                        ≡ some (or_zero (get_asr_quota (quota_day c.app) t3.quota) +ℤ used)))
                  _ t3 (upsert_asr_quota-Returns (quota_day c.app) used t3)
                  λ _ t4 (words4, sentences4, jobs4, names4, charged4).
                    let whole : IsReplaced s id ws t4 =
                      (words4 ∙ words3 ∙ replaced.0, sentences4 ∙ sentences3 ∙ replaced.1) in
                    let rows = IsReplaced-rows s id ws t4 whole in
                    record {
                      named =
                          subst (IsNamed video model s.transcriptions id)
                            (sym (names4 ∙ names3 ∙ names2)) named;
                      own_words =
                          subst (AreNumbered id 0 ws) (sym rows.0)
                            (to_word_rows-AreNumbered id 0 ws);
                      other_words = rows.1;
                      own_sentences =
                          ap (delete_where (λ r. not (is_sentence_of id r))) whole.1
                          ∙ delete_where_rest (is_sentence_of id) s.sentences;
                      other_sentences =
                          ap (delete_where (is_sentence_of id)) whole.1
                          ∙ delete_where_again (is_sentence_of id) s.sentences;
                      marked =
                          ap (mark_job_done job asr w c.db) (sym (jobs2 ∙ jobs1))
                          ∙ marked3
                          ∙ ap some (sym jobs4);
                      charged =
                          charged4
                          ∙ ap (λ q. some (or_zero (get_asr_quota (quota_day c.app) q) +ℤ used))
                              (quota3 ∙ quota2 ∙ quota1);
                    }

-- If CompleteAsrJob succeeds, then the video was known, and in one transaction: the id that it
-- returns is that of a row of this video and model, the only one that can be new in the table of
-- transcriptions; the words of that transcription are one row for each word that was sent, in
-- their order and numbered from 0, with its text, times, confidence and speaker cast to the width
-- of the columns; its old sentences are gone; the words and sentences of other transcriptions are
-- as they were; the job is marked done under the conditions of MarkJobDone; and the quota of the
-- day is charged with the duration of the video in seconds, rounded up.
pub complete_asr_job-IsTranscribed :
    (c : Clock) (w : String) (job video : ℕ) (model : String) (ws : List Word) (s : Store) (id : ℕ)
    (t : Store)
    → complete_asr_job c w job video model ws s ≡ ok (id, t)
    → (used : ℤ) × (get_video_duration video s ≡ ok used)
      × IsTranscribed c w job video model ws used s id t
unfolding complete_asr_job
complete_asr_job-IsTranscribed c w job video model ws s id t h =
    go (get_video_duration video s) refl h
  where
    go :
        (r : Result ℤ)
        → get_video_duration video s ≡ r
        → elim r [ err e ↦ err e | ok used ↦ store_transcription c w job video model ws used s ]
          ≡ ok (id, t)
        → (used : ℤ) × (get_video_duration video s ≡ ok used)
          × IsTranscribed c w job video model ws used s id t
    go (ok used) e stored = (
      used,
      e,
      subst (λ r. Returns r (IsTranscribed c w job video model ws used s)) stored
          (store_transcription-IsTranscribed c w job video model ws used s),
    )
    go (err e') e stored = cc
