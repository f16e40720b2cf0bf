-- ===== src/Sentences/Rows.antt =====
-- The rows in which upsertSentences of internal/api/sentence_manager.go stores the sentences.
use qarau.Common.{ℕ, suc, ◌≡◌, refl, List, [], ◌∷◌}
use qarau.Common.Int.{int32}
use qarau.Store.{SentenceRow}
use qarau.Sentences.{Sentence}
use qarau.Sentences.Manager.{to_sentence_rows}

-- The row of the sentence `s`, the `n`-th of its transcription.
pub record IsSentenceRow (id n : ℕ) (s : Sentence) (r : SentenceRow) : Type 0 where
  pub transcription : r.transcription_id ≡ id
  pub seq : r.seq ≡ int32 n
  pub first_word : r.start_word_seq ≡ int32 s.start_word_seq
  pub last_word : r.end_word_seq ≡ int32 s.end_word_seq
  pub from : r.start_ms ≡ int32 s.start_ms
  pub till : r.end_ms ≡ int32 s.end_ms
  pub text : r.text ≡ s.text

-- One row for each sentence, in their order, numbered from `n`.
abbrev pub AreSentenceRows : ℕ → ℕ → List Sentence → List SentenceRow → Type 0
AreSentenceRows id n [] [] = Unit {0}
AreSentenceRows id n [] (r ∷ rs) = ⊥
AreSentenceRows id n (s ∷ ss) [] = ⊥
AreSentenceRows id n (s ∷ ss) (r ∷ rs) = IsSentenceRow id n s r × AreSentenceRows id (suc n) ss rs

pub to_sentence_rows-AreSentenceRows :
    (id n : ℕ) (ss : List Sentence) → AreSentenceRows id n ss (to_sentence_rows id n ss)
unfolding to_sentence_rows
to_sentence_rows-AreSentenceRows id n [] = tt
to_sentence_rows-AreSentenceRows id n (s ∷ ss) = (
  record {
    transcription = refl;
    seq = refl;
    first_word = refl;
    last_word = refl;
    from = refl;
    till = refl;
    text = refl;
  },
  to_sentence_rows-AreSentenceRows id (suc n) ss,
)
