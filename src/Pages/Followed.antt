-- ===== src/Pages/Followed.antt =====
-- A client that follows `next` from page to page reads every word of a transcription once.
use mathlib.Core.List.{map-append}
use qarau.Common.{
  take-all, length-take, if-false, if-true, ℕ, zero, suc, ◌+◌, ◌<◌, ◌≡◌, refl, sym, ap, ◌∙◌, subst,
  true, false, some, List, [], ◌∷◌, ◌++◌, inl, inr, Bool-cases, leb, length, take, drop, map, arith,
  length-drop, take-append-drop,
}
use qarau.Common.Int.{ℤ, pos, negsuc, leb_ℤ, ltb_ℤ, between}
use qarau.Common.Result.{◌>>=◌, Result, ok}
use qarau.Common.Sorted.{
  IsWithin, IsKeyed, select_by_seq-IsRanged, select_by_seq-IsIncreasing, IsIncreasing, IsRanged,
}
use qarau.Common.Sorted.Parts.{
  keep-IsRanged, keep-congr, keep-keep, keep-page, select_by_seq-from, IsRanged-keep,
  IsIncreasing-keep, IsAbove-IsRanged, max_seq, keep,
}
use qarau.Store.{Store, WordRow, Transcription}
use qarau.Subtitles.{Subtitle, group}
use qarau.Subtitles.Grouped.{spoken, spoken-group, spoken-append}
use qarau.Pages.{
  seq_beyond_end, start_seq, span_of, get_subtitles, get_words, SubtitleSpan, to_input, Position,
  from_seq, from_beginning, subtitles, get_transcription,
}
use qarau.Pages.Client.{
  append_items, continue_with, follow, is_word_of, words_of, shown, map-shown, next_seq-full,
  next_seq-short, after,
}

module _ (t k : ℕ) (confidence : ℤ) (s : Store) where
  -- The pages from a position on hold these words.
  abbrev Serves : ℕ → Position → List WordRow → Type 0
  Serves n position rest =
      (items : List Subtitle) × (follow n t position (pos (suc k)) confidence s ≡ some items)
      × (spoken items ≡ map (shown confidence) rest)

  get_words-page :
      (start : ℤ) (rest : List WordRow)
      → keep (λ w. leb_ℤ start w.seq) (words_of t s) ≡ rest
      → get_words t start (pos (suc k)) s ≡ ok (take (suc k) rest)
  unfolding get_words
  get_words-page start rest q =
      if-false (ltb_ℤ (pos (suc k)) (pos 0)) _ _ (ground arith)
      ∙ ap (λ ws. ok (take (suc k) ws))
          (select_by_seq-from WordRow.seq (is_word_of t) start s.words ∙ q)

  -- The words of the page that starts at a number.
  subtitles-page :
      (position : Position) (start : ℤ) (rest : List WordRow)
      → between (pos 1) (pos 1000) (pos (suc k)) ≡ true
      → between (pos 0) (pos 100) confidence ≡ true
      → start_seq t position s ≡ ok start
      → keep (λ w. leb_ℤ start w.seq) (words_of t s) ≡ rest
      → subtitles t position (pos (suc k)) confidence s
        ≡ span_of t (pos (suc k)) confidence s (take (suc k) rest)
  unfolding subtitles get_subtitles
  subtitles-page position start rest c d e q =
      rw (e, c, d)
        (ap (λ r. r >>= span_of t (pos (suc k)) confidence s) (get_words-page start rest q))

  module _ (within : between (pos 1) (pos 1000) (pos (suc k)) ≡ true)
      (percent : between (pos 0) (pos 100) confidence ≡ true) (tr : Transcription)
      (there : get_transcription t s ≡ ok tr)
      (ranged : IsRanged WordRow.seq (pos 0) seq_beyond_end (words_of t s))
      (increasing : IsIncreasing WordRow.seq (words_of t s)) where
    -- The first page, from which the rest goes on.
    abbrev page_items : List WordRow → List Subtitle
    page_items ws = group (map (to_input confidence) ws) (pos 1000) (pos 14)

    spoken-page_items : (ws : List WordRow) → spoken (page_items ws) ≡ map (shown confidence) ws
    spoken-page_items ws =
        spoken-group (pos 1000) (pos 14) (map (to_input confidence) ws) ∙ map-shown confidence ws

    abbrev page_with : List WordRow → ℤ → Result SubtitleSpan
    page_with page next = ok (record { items = page_items page; next = next })

    serves-last :
        (n : ℕ) (position : Position) (page : List WordRow) (next : ℤ)
        → subtitles t position (pos (suc k)) confidence s
          ≡ ok (record { items = page_items page; next = next })
        → ltb_ℤ next (pos 0) ≡ true
        → Serves (suc n) position page
    unfolding follow
    serves-last n position page next e negative = (
      page_items page,
      ap (λ r. continue_with r (λ m. follow n t (from_seq m) (pos (suc k)) confidence s)) e
          ∙ if-true (ltb_ℤ next (pos 0)) _
              (append_items (page_items page)
                (follow n t (from_seq next) (pos (suc k)) confidence s))
              negative,
      spoken-page_items page,
    )

    serves-more :
        (n : ℕ) (position : Position) (page : List WordRow) (next : ℤ) (rest : List WordRow)
        → subtitles t position (pos (suc k)) confidence s
          ≡ ok (record { items = page_items page; next = next })
        → ltb_ℤ next (pos 0) ≡ false
        → Serves n (from_seq next) rest
        → Serves (suc n) position (page ++ rest)
    unfolding follow
    serves-more n position page next rest e nonneg (items, f, spoke) = (
      page_items page ++ items,
      ap (λ r. continue_with r (λ m. follow n t (from_seq m) (pos (suc k)) confidence s)) e
          ∙ if-false (ltb_ℤ next (pos 0)) (some (page_items page)) _ nonneg
          ∙ ap (append_items (page_items page)) f,
      spoken-append (page_items page) items
          ∙ ap (◌++ spoken items) (spoken-page_items page)
          ∙ ap (map (shown confidence) page ++◌) spoke
          ∙ sym (map-append (shown confidence) page rest),
    )

    start_seq-next :
        (a : ℕ) → a < 2147483647 → start_seq t (from_seq (pos (a + 1))) s ≡ ok (pos (a + 1))
    unfolding start_seq
    start_seq-next a lt =
        if-true (between (pos 0) seq_beyond_end (pos (a + 1))) (ok (pos (a + 1))) _ (ground arith)

    -- The words behind a full page.
    behind :
        (start : ℤ) (w : WordRow) (ws : List WordRow) (a : ℕ)
        → keep (λ v. leb_ℤ start v.seq) (words_of t s) ≡ w ∷ ws
        → leb_ℤ (pos 0) start ≡ true
        → leb_ℤ start (pos a) ≡ true
        → max_seq WordRow.seq (negsuc 0) (w ∷ take k ws) ≡ pos a
        → IsRanged WordRow.seq start seq_beyond_end (w ∷ ws)
        → keep (λ v. leb_ℤ (pos (a + 1)) v.seq) (words_of t s) ≡ drop k ws
    behind start w ws a q nonneg from m ranges =
        sym (
          keep-keep (λ v. leb_ℤ start v.seq) (λ v. leb_ℤ (pos (a + 1)) v.seq) (words_of t s)
            (λ v h. ground arith))
        ∙ ap (keep (λ v. leb_ℤ (pos (a + 1)) v.seq)) q
        ∙ keep-congr (λ v. leb_ℤ (pos (a + 1)) v.seq)
            (λ v. ltb_ℤ (max_seq WordRow.seq (negsuc 0) (w ∷ take k ws)) v.seq) (w ∷ ws)
            (λ v. rw m (after a v.seq))
        ∙ keep-page WordRow.seq (suc k) (negsuc 0) (w ∷ ws)
            (IsAbove-IsRanged WordRow.seq (negsuc 0) start seq_beyond_end (w ∷ ws) (ground arith)
              ranges)
            (subst (IsIncreasing WordRow.seq) q
              (IsIncreasing-keep WordRow.seq (λ v. leb_ℤ start v.seq) (words_of t s) increasing))

    serve :
        (n : ℕ) (position : Position) (start : ℤ) (rest : List WordRow)
        → start_seq t position s ≡ ok start
        → leb_ℤ (pos 0) start ≡ true
        → keep (λ w. leb_ℤ start w.seq) (words_of t s) ≡ rest
        → length rest < n
        → Serves n position rest
    unfolding follow spoken
    serve zero position start rest e nonneg q lt = absurd (omega arith)
    serve (suc n) position start [] e nonneg q lt =
        ([], rw (follow, subtitles-page position start [] within percent e q, there) refl, refl)
    serve (suc n) position start (w ∷ ws) e nonneg q lt =
        elim (Bool-cases (leb (suc k) (length (w ∷ take k ws)))) [
          | inl full ↦
              let ranges =
                subst (IsRanged WordRow.seq start seq_beyond_end) q
                  (IsRanged-keep WordRow.seq (pos 0) seq_beyond_end start (words_of t s) ranged) in
              let (a, small, from, m, next) = next_seq-full k start w ws nonneg full ranges in
              subst (λ rest. Serves (suc n) position (w ∷ rest)) (take-append-drop k ws)
                (serves-more n position (w ∷ take k ws) (pos (a + 1)) (drop k ws)
                  (subtitles-page position start (w ∷ ws) within percent e q
                    ∙ ap (page_with (w ∷ take k ws)) next)
                  (ground arith)
                  (serve n (from_seq (pos (a + 1))) (pos (a + 1)) (drop k ws)
                    (start_seq-next a small) (ground arith)
                    (behind start w ws a q nonneg from m ranges) (omega (arith, length-drop k ws))))
          | inr short ↦
              let all : take k ws ≡ ws = take-all k ws (ground (arith, length-take k ws)) in
              subst (λ page. Serves (suc n) position (w ∷ page)) all
                (serves-last n position (w ∷ take k ws) (negsuc 0)
                  (subtitles-page position start (w ∷ ws) within percent e q
                    ∙ ap (page_with (w ∷ take k ws)) (next_seq-short k w ws short))
                  refl)
        ]

-- A client that asks for the subtitles of a transcription from the beginning and then from each
-- answer's `next`, until that is negative, gets there in at most one page more than there are
-- words, and the subtitles of its pages hold every word of the transcription once, in the order of
-- their numbers, whatever the size of the page (1 to 1000) and the least confidence (0 to 100).
-- The words' numbers are distinct, not negative and below the largest int32.
pub follow-words_of :
    (t : ℕ) (count confidence : ℤ) (s : Store) (tr : Transcription)
    → between (pos 1) (pos 1000) count ≡ true
    → between (pos 0) (pos 100) confidence ≡ true
    → get_transcription t s ≡ ok tr
    → IsWithin WordRow.seq (is_word_of t) (pos 0) seq_beyond_end s.words
    → IsKeyed WordRow.seq (is_word_of t) s.words
    → (items : List Subtitle) × (follow
          (suc (length (words_of t s)))
          t
          from_beginning
          count
          confidence
          s
        ≡ some items)
      × (spoken items ≡ map (shown confidence) (words_of t s))
unfolding start_seq
follow-words_of t (negsuc n) confidence s tr c d there within keyed = absurd (ground arith)
follow-words_of t (pos zero) confidence s tr c d there within keyed = absurd (ground arith)
follow-words_of t (pos (suc k)) confidence s tr c d there within keyed =
    let ranged =
      select_by_seq-IsRanged WordRow.seq (is_word_of t) (pos 0) seq_beyond_end s.words within in
    serve t k confidence s c d tr there ranged
      (select_by_seq-IsIncreasing WordRow.seq (is_word_of t) s.words keyed)
      (suc (length (words_of t s))) from_beginning (pos 0) (words_of t s) refl refl
      (keep-IsRanged WordRow.seq (pos 0) seq_beyond_end (words_of t s) ranged) (omega arith)
