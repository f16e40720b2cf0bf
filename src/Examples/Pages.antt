-- ===== src/Examples/Pages.antt =====
-- Pages of two words of a transcription of three.
use qarau.Common.{◌≡◌, refl, some, List, [], ◌∷◌, suc, length, map, arith}
use qarau.Common.Int.{ℤ, pos}
use qarau.Common.Sorted.{IsWithin, IsKeyed}
use qarau.Common.Result.{ok}
use qarau.Common.Tables.{find}
use qarau.Store.{Store, WordRow, Transcription}
use qarau.Subtitles.{Subtitle}
use qarau.Subtitles.Grouped.{spoken}
use qarau.Pages.{from_beginning, get_transcription, seq_beyond_end}
use qarau.Pages.Client.{follow, is_word_of, words_of, shown}
use qarau.Pages.Followed.{follow-words_of}

abbrev word : ℤ → WordRow
word n = record {
  transcription_id = 1;
  seq = n;
  start_ms = n;
  end_ms = n;
  word = "w";
  confidence = pos 50;
  speaker = pos 0;
}

abbrev transcription : Transcription
transcription = record { id = 1; video_id = 7; model = "m" }

abbrev store : Store
store = record {
  videos = [];
  next_video = 8;
  jobs = [];
  next_job = 1;
  blobs = [];
  transcriptions = transcription ∷ [];
  next_transcription = 2;
  words = word (pos 2) ∷ word (pos 0) ∷ word (pos 1) ∷ [];
  sentences = [];
  quota = [];
}

there : get_transcription 1 store ≡ ok transcription
unfolding get_transcription find
there = refl

within : IsWithin WordRow.seq (is_word_of 1) (pos 0) seq_beyond_end store.words
within = (
  λ e. (omega arith, omega arith),
  (λ e. (omega arith, omega arith), (λ e. (omega arith, omega arith), tt)),
)

keyed : IsKeyed WordRow.seq (is_word_of 1) store.words
keyed = (
  λ e. ((λ f q. absurd (ground arith)), ((λ f q. absurd (ground arith)), tt)),
  (λ e. ((λ f q. absurd (ground arith)), tt), (λ e. tt, tt)),
)

follow-words_of_example :
    (items : List Subtitle) × (follow
        (suc (length (words_of 1 store)))
        1
        from_beginning
        (pos 2)
        (pos 60)
        store
      ≡ some items)
    × (spoken items ≡ map (shown (pos 60)) (words_of 1 store))
follow-words_of_example =
    follow-words_of 1 (pos 2) (pos 60) store transcription refl refl there within keyed
