-- ===== src/Sentences/Cut.antt =====
-- SegmentWordStream cuts the words into sentences: each word stands in one, and each is as long as
-- its rules allow.
use qarau.Common.{
  ℕ, ◌+◌, ◌≤◌, ◌==◌, ◌≡◌, refl, sym, ap, ◌∙◌, true, false, List, [], ◌∷◌, ◌++◌, length, arith, ◌⊎◌,
  inl, inr, Bool-cases,
}
use qarau.Common.Runs.{runs, Joins, Stops, AreRuns, after_all, runs-AreRuns}
use qarau.Words.{Word}
use qarau.Sentences.{
  Sentence, Run, start_run, grow_run, goes_on, is_terminal, last_word, to_sentence, to_sentences,
  segment_word_stream, max_word_per_sentence,
}

-- No word but the last ends a sentence, and the words behind `w` have one speaker.
abbrev pub Continues : ℕ → Word → List Word → Type 0
Continues speaker w [] = Unit {0}
Continues speaker w (v ∷ vs) =
    (is_terminal w ≡ false) × (v.speaker ≡ speaker) × Continues speaker v vs

-- The sentence of `w` and `ws` ends for a reason: the word behind it is another speaker's, its
-- last word is terminal, or it is full.
abbrev pub EndsBefore : Word → List Word → List Word → Type 0
EndsBefore w ws [] = Unit {0}
EndsBefore w ws (next ∷ rest) =
    (is_terminal (last_word w ws) ≡ true)
    ⊎ ((w.speaker == next.speaker) ≡ false)
    ⊎ (1 + length ws ≡ max_word_per_sentence)

-- The sentences cut these words, the first of which is the word `i`.
abbrev pub AreCut : ℕ → List Word → List Sentence → Type 0
AreCut i words [] = words ≡ []
AreCut i words (s ∷ ss) =
    (w : Word) × (ws : List Word) × (rest : List Word) × (words ≡ w ∷ ws ++ rest)
    × (s ≡ to_sentence i w ws)
    × (1 + length ws ≤ max_word_per_sentence)
    × Continues w.speaker w ws
    × EndsBefore w ws rest
    × AreCut (i + length ws + 1) rest ss

Joins-Continues :
    (r : Run) (ws : List Word)
    → r.count ≤ max_word_per_sentence
    → Joins start_run grow_run goes_on r ws
    → Continues r.first.speaker r.last ws × (r.count + length ws ≤ max_word_per_sentence)
unfolding goes_on
Joins-Continues r [] c h = (tt, omega arith)
Joins-Continues r (w ∷ ws) c (h, hs) =
    let (more, size) = Joins-Continues (grow_run r w) ws (ground arith) hs in
    ((ground arith, ground arith, more), omega arith)

after_all-last :
    (r : Run) (w : Word) (ws : List Word)
    → r.last ≡ w
    → (after_all start_run grow_run goes_on r ws).last ≡ last_word w ws
unfolding last_word
after_all-last r w [] e = e
after_all-last r w (v ∷ vs) e = after_all-last (grow_run r v) v vs refl

after_all-first :
    (r : Run) (ws : List Word) → (after_all start_run grow_run goes_on r ws).first ≡ r.first
after_all-first r [] = refl
after_all-first r (w ∷ ws) = after_all-first (grow_run r w) ws

after_all-count :
    (r : Run) (ws : List Word)
    → (after_all start_run grow_run goes_on r ws).count ≡ r.count + length ws
after_all-count r [] = omega arith
after_all-count r (w ∷ ws) = omega (arith, after_all-count (grow_run r w) ws)

is_full :
    (r : Run) (next : Word) {speaker : ℕ}
    → r.first.speaker ≡ speaker
    → is_terminal r.last ≡ false
    → (speaker == next.speaker) ≡ true
    → r.count ≤ max_word_per_sentence
    → goes_on r next ≡ false
    → r.count ≡ max_word_per_sentence
unfolding goes_on
is_full r next s l d c stop = ground arith

Stops-EndsBefore :
    (w : Word) (ws rest : List Word)
    → 1 + length ws ≤ max_word_per_sentence
    → Stops start_run grow_run goes_on (after_all start_run grow_run goes_on (start_run w) ws) rest
    → EndsBefore w ws rest
unfolding goes_on
Stops-EndsBefore w ws [] size h = tt
Stops-EndsBefore w ws (next ∷ rest) size h =
    go (after_all start_run grow_run goes_on (start_run w) ws) (after_all-first (start_run w) ws)
      (after_all-last (start_run w) w ws refl) (after_all-count (start_run w) ws) h
  where
    go :
        (r : Run)
        → r.first ≡ w
        → r.last ≡ last_word w ws
        → r.count ≡ 1 + length ws
        → goes_on r next ≡ false
        → EndsBefore w ws (next ∷ rest)
    go r f l c stop = elim (Bool-cases (is_terminal (last_word w ws))) [
      | inl e ↦ inl e
      | inr e ↦ elim (Bool-cases (w.speaker == next.speaker)) [
        | inr d ↦ inr (inl d)
        | inl d ↦ inr (
            inr (
              sym c
              ∙ is_full r next (ap Word.speaker f) (ap is_terminal l ∙ e) d (omega (arith, c))
                  stop))
      ]
    ]

to_sentences-AreCut :
    (i : ℕ) (words : List Word) (rs : List (Word × List Word))
    → AreRuns start_run grow_run goes_on words rs
    → AreCut i words (to_sentences i rs)
unfolding to_sentences
to_sentences-AreCut i words [] h = h
to_sentences-AreCut i words ((w, ws) ∷ rs) (rest, cut, joins, stops, more) =
    let (same, size) = Joins-Continues (start_run w) ws (omega arith) joins in
    (
      w,
      ws,
      rest,
      cut,
      refl,
      size,
      same,
      Stops-EndsBefore w ws rest size stops,
      to_sentences-AreCut (i + length ws + 1) rest rs more,
    )

-- SegmentWordStream numbers and cuts the words in order: each sentence takes the words from where
-- the one before it ended, up to 40 of one speaker, with their texts joined, the start of the
-- first and the end of the last; only its last word may be terminal; and it ends only at the end
-- of the words, at a terminal word, before another speaker, or with 40 words.
pub segment_word_stream-AreCut : (words : List Word) → AreCut 0 words (segment_word_stream words)
unfolding segment_word_stream
segment_word_stream-AreCut words =
    to_sentences-AreCut 0 words (runs start_run grow_run goes_on (length words) words)
      (runs-AreRuns start_run grow_run goes_on (length words) words (omega arith))
