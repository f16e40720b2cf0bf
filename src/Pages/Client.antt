-- ===== src/Pages/Client.antt =====
-- A client that follows `next` from page to page, and where a page ends.
use qarau.Common.{
  if-false, if-true, ℕ, zero, suc, ◌+◌, ◌<◌, ◌≡◌, refl, sym, ap, ◌∙◌, subst, Bool, true, false,
  ◌&&◌, Option, none, some, List, [], ◌∷◌, ◌++◌, ◌==◌, if◌then◌else◌, leb, length, take, map, arith,
}
use qarau.Common.Int.{ℤ, pos, negsuc, ◌+ℤ◌, leb_ℤ, ltb_ℤ, int32_of, ◌≤ℤ◌, ◌<ℤ◌, int32}
use qarau.Common.Result.{Result, ok, err}
use qarau.Common.Sorted.{IsRanged, select_by_seq}
use qarau.Common.Sorted.Parts.{max_seq-within, max_seq}
use qarau.Store.{Store, WordRow}
use qarau.Subtitles.{OutputWord, Subtitle, to_output}
use qarau.Pages.{seq_beyond_end, SubtitleSpan, to_input, next_seq, Position, from_seq, subtitles}

abbrev pub append_items : List Subtitle → Option (List Subtitle) → Option (List Subtitle)
append_items items none = none
append_items items (some more) = some (items ++ more)

abbrev pub continue_with :
    Result SubtitleSpan → (ℤ → Option (List Subtitle)) → Option (List Subtitle)
continue_with (err e) more = none
continue_with (ok span) more =
    if ltb_ℤ span.next (pos 0) then some span.items else append_items span.items (more span.next)

-- The items of the pages that are requested one after another, at most `n`, until `next` is
-- negative; none when an answer is an error or the pages do not suffice.
unfoldable pub follow : ℕ → ℕ → Position → ℤ → ℤ → Store → Option (List Subtitle)
follow zero transcription position count confidence s = none
follow (suc n) transcription position count confidence s =
    continue_with (subtitles transcription position count confidence s)
      (λ next. follow n transcription (from_seq next) count confidence s)

abbrev pub is_word_of : ℕ → WordRow → Bool
is_word_of transcription w = w.transcription_id == transcription

-- The words of a transcription in the order of their numbers.
abbrev pub words_of : ℕ → Store → List WordRow
words_of transcription s = select_by_seq WordRow.seq (is_word_of transcription) s.words

abbrev pub shown : ℤ → WordRow → OutputWord
shown confidence w = to_output (to_input confidence w)

next-pos : (a : ℕ) → a < 2147483647 → int32_of (pos a +ℤ pos 1) ≡ pos (a + 1)
unfolding ◌+ℤ◌ int32
next-pos a lt = ground arith

pub map-shown :
    (confidence : ℤ) (ws : List WordRow)
    → map to_output (map (to_input confidence) ws) ≡ map (shown confidence) ws
map-shown confidence [] = refl
map-shown confidence (w ∷ ws) = ap (◌∷◌ (shown confidence w)) (map-shown confidence ws)

-- A full page: the next one starts behind its last word.
pub next_seq-full :
    (k : ℕ) (start : ℤ) (w : WordRow) (ws : List WordRow)
    → leb_ℤ (pos 0) start ≡ true
    → leb (suc k) (length (w ∷ take k ws)) ≡ true
    → IsRanged WordRow.seq start seq_beyond_end (w ∷ ws)
    → (a : ℕ) × (a < 2147483647)
      × leb_ℤ start (pos a) ≡ true
      × (max_seq WordRow.seq (negsuc 0) (w ∷ take k ws) ≡ pos a)
      × (next_seq (pos (suc k)) (w ∷ take k ws) ≡ pos (a + 1))
unfolding next_seq
next_seq-full k start w ws nonneg full ((l, u), h) =
    go (max_seq WordRow.seq (negsuc 0) (w ∷ take k ws)) refl (
      subst (λ m. (start ≤ℤ m) × (m <ℤ seq_beyond_end)) (sym head)
        (max_seq-within WordRow.seq start seq_beyond_end w.seq k ws l u h))
  where
    e : ltb_ℤ (negsuc 0) w.seq ≡ true
    e = ground arith

    head : max_seq WordRow.seq (negsuc 0) (w ∷ take k ws) ≡ max_seq WordRow.seq w.seq (take k ws)
    head = rw (max_seq, e) refl

    go :
        (m : ℤ)
        → max_seq WordRow.seq (negsuc 0) (w ∷ take k ws) ≡ m
        → (start ≤ℤ m) × (m <ℤ seq_beyond_end)
        → (a : ℕ) × (a < 2147483647)
          × leb_ℤ start (pos a) ≡ true
          × (max_seq WordRow.seq (negsuc 0) (w ∷ take k ws) ≡ pos a)
          × (next_seq (pos (suc k)) (w ∷ take k ws) ≡ pos (a + 1))
    go (negsuc m) q (lo, hi) = absurd (ground arith)
    go (pos a) q (lo, hi) = (
      a,
      omega arith,
      ground arith,
      q,
      rw q (
          if-true (leb_ℤ (pos 0) (pos a) && leb_ℤ (pos (suc k)) (pos (length (w ∷ take k ws))))
            (int32_of (pos a +ℤ pos 1)) (negsuc 0) (ground arith)
          ∙ next-pos a (omega arith)),
    )

pub after : (a : ℕ) (b : ℤ) → leb_ℤ (pos (a + 1)) b ≡ ltb_ℤ (pos a) b
after a (pos b) = ground arith
after a (negsuc b) = ground arith

pub next_seq-short :
    (k : ℕ) (w : WordRow) (ws : List WordRow)
    → leb (suc k) (length (w ∷ take k ws)) ≡ false
    → next_seq (pos (suc k)) (w ∷ take k ws) ≡ negsuc 0
unfolding next_seq
next_seq-short k w ws short =
    if-false
      (leb_ℤ (pos 0) (max_seq WordRow.seq (negsuc 0) (w ∷ take k ws))
        && leb_ℤ (pos (suc k)) (pos (length (w ∷ take k ws))))
      (int32_of (max_seq WordRow.seq (negsuc 0) (w ∷ take k ws) +ℤ pos 1)) (negsuc 0) (ground arith)
