-- ===== src/Service/Numbered.antt =====
-- The row of a transcription and those of its words, as CompleteAsrJob leaves them.
use Prim.Native.String.{String}
use text.Mathlib.Text.{◌==◌ as str_eq}
use text.Mathlib.TextEquality.{eq_iff}
use qarau.Common.{
  ◌&&◌, ℕ, suc, ◌≡◌, refl, Option, none, some, List, [], ◌∷◌, inl, inr, ◌⊎◌, Bool-cases, arith,
  ◌==◌,
}
use qarau.Common.Int.{int32, int16}
use qarau.Common.Tables.{In}
use qarau.Words.{Word}
use qarau.Store.{
  Store, Video, WordRow, Transcription, exists, find_transcription, upsert_transcription,
}
use qarau.Transcript.{to_word_rows}
use qarau.Service.Replaced.{Returns}

-- The row of the word `w`, the `n`-th of its transcription.
pub record IsRowOf (id n : ℕ) (w : Word) (r : WordRow) : Type 0 where
  pub transcription : r.transcription_id ≡ id
  pub seq : r.seq ≡ int32 n
  pub word : r.word ≡ w.word
  pub from : r.start_ms ≡ int32 w.start_ms
  pub till : r.end_ms ≡ int32 w.end_ms
  pub confidence : r.confidence ≡ int16 w.confidence
  pub speaker : r.speaker ≡ int32 w.speaker

-- One row for each word, in their order, numbered from `n`.
abbrev pub AreNumbered : ℕ → ℕ → List Word → List WordRow → Type 0
AreNumbered id n [] [] = Unit {0}
AreNumbered id n [] (r ∷ rs) = ⊥
AreNumbered id n (w ∷ ws) [] = ⊥
AreNumbered id n (w ∷ ws) (r ∷ rs) = IsRowOf id n w r × AreNumbered id (suc n) ws rs

pub to_word_rows-AreNumbered :
    (id n : ℕ) (ws : List Word) → AreNumbered id n ws (to_word_rows id n ws)
unfolding to_word_rows
to_word_rows-AreNumbered id n [] = tt
to_word_rows-AreNumbered id n (w ∷ ws) = (
  record {
    transcription = refl;
    seq = refl;
    word = refl;
    from = refl;
    till = refl;
    confidence = refl;
    speaker = refl;
  },
  to_word_rows-AreNumbered id (suc n) ws,
)

-- `id` is that of a row of this video and model, which was there or is new, and the other rows are
-- as they were.
abbrev pub IsNamed : ℕ → String → List Transcription → ℕ → List Transcription → Type 0
IsNamed video model before id after =
    (r : Transcription) × In r after
    × (r.id ≡ id)
    × (r.video_id ≡ video)
    × (r.model ≡ model)
    × ((after ≡ before) ⊎ (after ≡ r ∷ before))

found_transcription :
    (video : ℕ) (model : String) (ts : List Transcription) (id : ℕ)
    → find_transcription video model ts ≡ some id
    → (r : Transcription) × In r ts × (r.id ≡ id) × (r.video_id ≡ video) × (r.model ≡ model)
unfolding find_transcription
found_transcription video model [] id e = cc
found_transcription video model (t ∷ ts) id e =
    elim (Bool-cases (t.video_id == video && str_eq t.model model)) [
      | inl h ↦ (
        t,
        inl refl,
        ground (arith, h),
        ground (arith, h),
        ground (arith, h, eq_iff t.model model),
      )
      | inr h ↦
          let (r, m, i, v, k) = found_transcription video model ts id (ground (arith, h)) in
          (r, inr m, i, v, k)
    ]

-- What UpsertTranscription changes, and all that it leaves alone.
pub upsert_transcription-IsNamed :
    (video : ℕ) (model : String) (s : Store)
    → Returns (upsert_transcription video model s) (λ id t.
      IsNamed video model s.transcriptions id t.transcriptions
      × (t.words ≡ s.words)
      × (t.sentences ≡ s.sentences)
      × (t.jobs ≡ s.jobs)
      × (t.quota ≡ s.quota))
unfolding upsert_transcription
upsert_transcription-IsNamed video model s =
    go (find_transcription video model s.transcriptions) refl
  where
    go :
        (o : Option ℕ)
        → find_transcription video model s.transcriptions ≡ o
        → Returns (upsert_transcription video model s) (λ id t.
          IsNamed video model s.transcriptions id t.transcriptions
          × (t.words ≡ s.words)
          × (t.sentences ≡ s.sentences)
          × (t.jobs ≡ s.jobs)
          × (t.quota ≡ s.quota))
    go (some id) e =
        let (r, m, named, of_video, of_model) =
          found_transcription video model s.transcriptions id e in
        rw (e, upsert_transcription)
          ((r, m, named, of_video, of_model, inl refl), refl, refl, refl, refl)
    go none e = elim (Bool-cases (exists (λ v. Video.id v == video) s.videos)) [
      | inr h ↦ rw (e, upsert_transcription, h) tt
      | inl h ↦
          rw (e, upsert_transcription, h)
            ((_, inl refl, refl, refl, refl, inr refl), refl, refl, refl, refl)
    ]
