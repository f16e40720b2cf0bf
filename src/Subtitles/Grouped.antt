-- ===== src/Subtitles/Grouped.antt =====
-- Group splits the words into subtitles exactly where its rules say.
use mathlib.Core.List.{append_assoc, map-append}
use qarau.Common.{
  map, sym, ap, ◌∙◌, subst, ℕ, ◌+◌, ◌≡◌, refl, false, List, [], ◌∷◌, ◌++◌, length, arith, ◌⊎◌, ◌==◌,
}
use qarau.Common.Int.{ℤ, pos, ◌+ℤ◌, ◌≤ℤ◌, ◌<ℤ◌}
use qarau.Common.Runs.{runs, Joins, Stops, AreRuns, after_all, runs-AreRuns}
use qarau.Subtitles.{
  to_output, OutputWord, InputWord, Subtitle, start_span, grow_span, goes_on, to_subtitles, group,
  join_words, last_input,
}

-- Each word behind `w` follows within the pause, has the same speaker, and is not one too many.
abbrev pub IsSmooth : ℤ → ℤ → ℕ → InputWord → List InputWord → Type 0
IsSmooth max_pause max_words count w [] = Unit {0}
IsSmooth max_pause max_words count w (v ∷ vs) =
    (v.start_ms ≤ℤ w.end_ms +ℤ max_pause)
    × (v.speaker ≡ w.speaker)
    × (pos count <ℤ max_words)
    × IsSmooth max_pause max_words (count + 1) v vs

-- The first word behind a subtitle does not fit into it.
abbrev pub IsSplit : ℤ → ℤ → ℕ → InputWord → List InputWord → Type 0
IsSplit max_pause max_words count w [] = Unit {0}
IsSplit max_pause max_words count w (next ∷ rest) =
    (w.end_ms +ℤ max_pause <ℤ next.start_ms)
    ⊎ ((w.speaker == next.speaker) ≡ false)
    ⊎ (max_words ≤ℤ pos count)

abbrev pub AreGrouped : ℤ → ℤ → List InputWord → List Subtitle → Type 0
AreGrouped max_pause max_words words [] = words ≡ []
AreGrouped max_pause max_words words (s ∷ ss) =
    (w : InputWord) × (ws : List InputWord) × (rest : List InputWord) × (words ≡ w ∷ ws ++ rest)
    × (s ≡ join_words w ws)
    × IsSmooth max_pause max_words 1 w ws
    × IsSplit max_pause max_words (1 + length ws) (last_input w ws) rest
    × AreGrouped max_pause max_words rest ss

module _ (max_pause max_words : ℤ) where
  Joins-IsSmooth :
      (n : ℕ) (w : InputWord) (ws : List InputWord)
      → Joins start_span grow_span (goes_on max_pause max_words) (record { prev = w; count = n }) ws
      → IsSmooth max_pause max_words n w ws
  unfolding goes_on ◌+ℤ◌
  Joins-IsSmooth n w [] h = tt
  Joins-IsSmooth n w (v ∷ vs) (h, hs) =
      (ground arith, ground arith, ground arith, Joins-IsSmooth (n + 1) v vs hs)

  after_all-last_input :
      (n : ℕ) (w : InputWord) (ws : List InputWord)
      → after_all start_span grow_span
          (goes_on max_pause max_words)
          (record { prev = w; count = n })
          ws
        ≡ record { prev = last_input w ws; count = n + length ws }
  unfolding last_input
  after_all-last_input n w [] = ap (λ m. record { prev = w; count = m }) (omega arith)
  after_all-last_input n w (v ∷ vs) =
      after_all-last_input (n + 1) v vs
      ∙ ap (λ m. record { prev = last_input v vs; count = m }) (omega arith)

  Stops-IsSplit :
      (n : ℕ) (w : InputWord) (rest : List InputWord)
      → Stops start_span grow_span
          (goes_on max_pause max_words)
          (record { prev = w; count = n })
          rest
      → IsSplit max_pause max_words n w rest
  unfolding goes_on ◌+ℤ◌
  Stops-IsSplit n w [] h = tt
  Stops-IsSplit n w (next ∷ rest) h = ground arith

  to_subtitles-AreGrouped :
      (words : List InputWord) (rs : List (InputWord × List InputWord))
      → AreRuns start_span grow_span (goes_on max_pause max_words) words rs
      → AreGrouped max_pause max_words words (to_subtitles rs)
  unfolding to_subtitles
  to_subtitles-AreGrouped words [] h = h
  to_subtitles-AreGrouped words ((w, ws) ∷ rs) (rest, cut, joins, stops, more) = (
    w,
    ws,
    rest,
    cut,
    refl,
    Joins-IsSmooth 1 w ws joins,
    Stops-IsSplit (1 + length ws) (last_input w ws) rest (
        subst (λ s. Stops start_span grow_span (goes_on max_pause max_words) s rest)
          (after_all-last_input 1 w ws) stops),
    to_subtitles-AreGrouped rest rs more,
  )

  -- Group puts the words into subtitles in order: each has the next words, the start of its first
  -- and the end of its last; a further word joins a subtitle only if the pause before it is at most
  -- max_pause, the speaker stays, and the subtitle has fewer than max_words; and where a subtitle
  -- ends before the last word, the pause is longer, or another speaker follows, or it has max_words
  -- or more.
  pub group-AreGrouped :
      (words : List InputWord)
      → AreGrouped max_pause max_words words (group words max_pause max_words)
  unfolding group
  group-AreGrouped words =
      to_subtitles-AreGrouped words
        (runs start_span grow_span (goes_on max_pause max_words) (length words) words)
        (runs-AreRuns start_span grow_span (goes_on max_pause max_words) (length words) words
          (omega arith))

-- The words of subtitles, one after another.
unfoldable pub spoken : List Subtitle → List OutputWord
spoken [] = []
spoken (s ∷ ss) = s.words ++ spoken ss

spoken-AreGrouped :
    (max_pause max_words : ℤ) (words : List InputWord) (ss : List Subtitle)
    → AreGrouped max_pause max_words words ss
    → spoken ss ≡ map to_output words
unfolding spoken join_words
spoken-AreGrouped p m words [] h = rw h refl
spoken-AreGrouped p m words (s ∷ ss) (w, ws, rest, cut, q, smooth, split, more) =
    rw (q, spoken-AreGrouped p m rest ss more)
      (sym (ap (map to_output) cut ∙ map-append to_output (w ∷ ws) rest))

pub spoken-group :
    (max_pause max_words : ℤ) (words : List InputWord)
    → spoken (group words max_pause max_words) ≡ map to_output words
spoken-group p m words = spoken-AreGrouped p m words (group words p m) (group-AreGrouped p m words)

pub spoken-append : (ss ts : List Subtitle) → spoken (ss ++ ts) ≡ spoken ss ++ spoken ts
unfolding spoken
spoken-append [] ts = refl
spoken-append (s ∷ ss) ts =
    ap (s.words ++◌) (spoken-append ss ts) ∙ sym (append_assoc s.words (spoken ss) (spoken ts))
