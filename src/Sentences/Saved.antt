-- ===== src/Sentences/Saved.antt =====
-- The sentences that CompleteAsr stores are those of the transcription's words.
use Prim.Native.String.{String}
use mathlib.Core.List.{append-nil}
use qarau.Common.{
  subst, ℕ, suc, ◌≡◌, refl, sym, ap, ◌∙◌, Bool, true, false, not, some, List, [], ◌∷◌, ◌++◌, ◌⊎◌,
  inl, inr, Bool-cases, length, ==_self,
}
use qarau.Common.Int.{ℤ, pos, pos_part, leb_ℤ}
use qarau.Common.Result.{Result, ok, err, internal, out_of_range}
use qarau.Words.{Word}
use qarau.Store.{
  Store, SentenceRow, exists, is_range, delete_where, delete_sentences, insert_sentences,
}
use qarau.Service.{Clock}
use qarau.Service.Requests.{after}
use qarau.Service.Replaced.{
  is_sentence_of, delete_where-append, delete_where_again, delete_where_rest,
}
use qarau.Transcript.{complete_asr_job}
use qarau.Sentences.{Sentence, segment_word_stream}
use qarau.Sentences.Rows.{AreSentenceRows, to_sentence_rows-AreSentenceRows}
use qarau.Sentences.Manager.{
  to_sentence_row, to_sentence_rows, upsert_sentences, create_and_upsert_sentences, complete_asr,
}

-- Whether the table refuses one of the rows.
abbrev pub is_refused : List SentenceRow → Bool
is_refused rows = exists (λ r. not (is_range r)) rows

own_sentence_rows :
    (id i : ℕ) (ss : List Sentence)
    → (delete_where (is_sentence_of id) (to_sentence_rows id i ss) ≡ [])
      × (delete_where (λ r. not (is_sentence_of id r)) (to_sentence_rows id i ss)
          ≡ to_sentence_rows id i ss)
unfolding delete_where to_sentence_rows
own_sentence_rows id i [] = (refl, refl)
own_sentence_rows id i (s ∷ ss) =
    let (gone, kept) = own_sentence_rows id (suc i) ss in
    rw (==_self id) (gone, ap (λ q. to_sentence_row id i s ∷ q) kept)

-- The store `t` is `u` with the sentences of one transcription replaced by these rows.
pub record HasSentences (id : ℕ) (rows : List SentenceRow) (u t : Store) : Type 0 where
  pub own : delete_where (λ r. not (is_sentence_of id r)) t.sentences ≡ rows
  pub others :
      delete_where (is_sentence_of id) t.sentences ≡ delete_where (is_sentence_of id) u.sentences
  pub same_words : t.words ≡ u.words
  pub same_jobs : t.jobs ≡ u.jobs

upserted : ℕ → List SentenceRow → Store → Store
upserted id rows u = record u { sentences = delete_where (is_sentence_of id) u.sentences ++ rows }

upserted-HasSentences :
    (id : ℕ) (ss : List Sentence) (u : Store)
    → HasSentences id (to_sentence_rows id 0 ss) u (upserted id (to_sentence_rows id 0 ss) u)
unfolding upserted
upserted-HasSentences id ss u =
    let (gone, kept) = own_sentence_rows id 0 ss in
    let not_of : SentenceRow → Bool = λ r. not (is_sentence_of id r) in
    let old : List SentenceRow = delete_where (is_sentence_of id) u.sentences in
    let rows : List SentenceRow = to_sentence_rows id 0 ss in
    record {
      own =
          delete_where-append not_of old rows
          ∙ ap (λ q. q ++ delete_where not_of rows)
              (delete_where_rest (is_sentence_of id) u.sentences)
          ∙ kept;
      others =
          delete_where-append (is_sentence_of id) old rows
          ∙ ap (λ q. delete_where (is_sentence_of id) old ++ q) gone
          ∙ append-nil _
          ∙ delete_where_again (is_sentence_of id) u.sentences;
      same_words = refl;
      same_jobs = refl;
    }

insert_sentences-ok :
    (rows : List SentenceRow) (u : Store)
    → is_refused rows ≡ false
    → insert_sentences rows u ≡ ok (tt, record u { sentences = u.sentences ++ rows })
unfolding insert_sentences
insert_sentences-ok rows u e = rw e refl

insert_sentences-err :
    (rows : List SentenceRow) (u : Store)
    → is_refused rows ≡ true
    → insert_sentences rows u ≡ err out_of_range
unfolding insert_sentences
insert_sentences-err rows u e = rw e refl

abbrev counted : ℕ → Result (Unit {0} × Store) → Result (ℕ × Store)
counted n r = elim r [ err e ↦ err e | ok (a, v) ↦ ok (n, v) ]

abbrev cleared : ℕ → Store → Store
cleared id u = record u { sentences = delete_where (is_sentence_of id) u.sentences }

upsert_sentences-counted :
    (id : ℕ) (ss : List Sentence) (u : Store)
    → upsert_sentences id ss u
      ≡ counted (length ss) (insert_sentences (to_sentence_rows id 0 ss) (cleared id u))
unfolding upsert_sentences delete_sentences
upsert_sentences-counted id ss u = refl

upsert_sentences-upserted :
    (id : ℕ) (ss : List Sentence) (u : Store)
    → is_refused (to_sentence_rows id 0 ss) ≡ false
    → upsert_sentences id ss u ≡ ok (length ss, upserted id (to_sentence_rows id 0 ss) u)
unfolding upserted
upsert_sentences-upserted id ss u e =
    upsert_sentences-counted id ss u
    ∙ ap (counted (length ss)) (insert_sentences-ok (to_sentence_rows id 0 ss) (cleared id u) e)

upsert_sentences-refused :
    (id : ℕ) (ss : List Sentence) (u : Store)
    → is_refused (to_sentence_rows id 0 ss) ≡ true
    → upsert_sentences id ss u ≡ err out_of_range
upsert_sentences-refused id ss u e =
    upsert_sentences-counted id ss u
    ∙ ap (counted (length ss)) (insert_sentences-err (to_sentence_rows id 0 ss) (cleared id u) e)

-- The sentences after CompleteAsr: those of the words, or the old ones if the table refuses a row.
abbrev pub IsSaved : ℕ → List Word → Store → Store → Type 0
IsSaved id words u t =
    let rows = to_sentence_rows id 0 (segment_word_stream words) in
    AreSentenceRows id 0 (segment_word_stream words) rows
    × (((is_refused rows ≡ false) × HasSentences id rows u t)
        ⊎ ((is_refused rows ≡ true) × (t ≡ u)))

after-IsSaved :
    (id : ℕ) (words : List Word) (u : Store)
    → IsSaved id words u (after u (create_and_upsert_sentences id words u))
unfolding create_and_upsert_sentences
after-IsSaved id words u =
    let ss : List Sentence = segment_word_stream words in
    (
      to_sentence_rows-AreSentenceRows id 0 ss,
      elim (Bool-cases (is_refused (to_sentence_rows id 0 ss))) [
        | inl e ↦ inr (e, ap (after u) (upsert_sentences-refused id ss u e))
        | inr e ↦ inl (
          e,
          subst (HasSentences id (to_sentence_rows id 0 ss) u)
              (sym (ap (after u) (upsert_sentences-upserted id ss u e)))
              (upserted-HasSentences id ss u),
        )
      ],
    )

-- If CompleteAsr succeeds, then CompleteAsrJob has, and the sentences of its transcription are
-- exactly those of SegmentWordStream on the words, one row for each, in their order and numbered
-- from 0, with its text and its words and times cast to int32, and the sentences of other
-- transcriptions, the words and the jobs are as CompleteAsrJob left them; unless the table refuses one
-- of them, one that starts behind its end, in which case nothing is added to what CompleteAsrJob did.
pub complete_asr-IsSaved :
    (c : Clock) (w : String) (job : ℤ) (video : ℕ) (model : String) (words : List Word)
    (s t : Store)
    → complete_asr c w job video (some (model, words)) s ≡ ok (tt, t)
    → (id : ℕ) × (u : Store) × (complete_asr_job c w (pos_part job) video model words s
        ≡ ok (id, u))
      × IsSaved id words u t
unfolding complete_asr
complete_asr-IsSaved c w job video model words s t h = elim (Bool-cases (leb_ℤ job (pos 0))) [
  | inl e ↦ cc (rw e at h)
  | inr e ↦ go (complete_asr_job c w (pos_part job) video model words s) refl (rw e at h)
]
  where
    answer_of : Result (ℕ × Store) → Result (Unit {0} × Store)
    answer_of (err e) = err internal
    answer_of (ok (id, u)) = ok (tt, after u (create_and_upsert_sentences id words u))

    go :
        (r : Result (ℕ × Store))
        → complete_asr_job c w (pos_part job) video model words s ≡ r
        → answer_of r ≡ ok (tt, t)
        → (id : ℕ) × (u : Store) × (complete_asr_job c w (pos_part job) video model words s
            ≡ ok (id, u))
          × IsSaved id words u t
    go (err e') e h' = cc
    go (ok (id, u)) e h' = (id, u, e, subst (IsSaved id words u) (cc h') (after-IsSaved id words u))
