-- ===== src/Subtitles.antt =====
-- Subtitles of a transcription (internal/subtitles/group.go).
pub mod Grouped
use Prim.Native.String.{String, ◌++◌ as str_append}
use qarau.Common.{
  ℕ, suc, ◌+◌, Bool, true, false, not, ◌||◌, List, [], ◌∷◌, length, ◌==◌, map, if◌then◌else◌,
}
use qarau.Common.Int.{ℤ, pos, ◌+ℤ◌, ltb_ℤ, leb_ℤ}
use qarau.Common.Runs.{runs}

pub record InputWord : Type 0 where
  pub word : String
  pub start_ms : ℤ
  pub end_ms : ℤ
  pub speaker : ℕ

pub record OutputWord : Type 0 where
  pub word : String
  pub start_ms : ℤ
  pub end_ms : ℤ

pub record Subtitle : Type 0 where
  pub words : List OutputWord
  pub start_ms : ℤ
  pub end_ms : ℤ

abbrev pub to_output : InputWord → OutputWord
to_output w = record { word = w.word; start_ms = w.start_ms; end_ms = w.end_ms }

unfoldable pub last_input : InputWord → List InputWord → InputWord
last_input w [] = w
last_input w (v ∷ vs) = last_input v vs

-- joinWords, of the words `w` and `ws`.
unfoldable pub join_words : InputWord → List InputWord → Subtitle
unfolding last_input
join_words w ws = record {
  words = map to_output (w ∷ ws);
  start_ms = w.start_ms;
  end_ms = (last_input w ws).end_ms;
}

-- The words from `start` to `end` of the loop: the last one, and how many they are.
pub record Span : Type 0 where
  pub prev : InputWord
  pub count : ℕ

abbrev pub start_span : InputWord → Span
start_span w = record { prev = w; count = 1 }

abbrev pub grow_span : Span → InputWord → Span
grow_span s w = record { prev = w; count = s.count + 1 }

-- Whether the loop does not split here.
unfoldable pub goes_on : ℤ → ℤ → Span → InputWord → Bool
goes_on max_pause max_words s next = not (
    ltb_ℤ (s.prev.end_ms +ℤ max_pause) next.start_ms
    || not (s.prev.speaker == next.speaker)
    || leb_ℤ max_words (pos s.count))

unfoldable pub to_subtitles : List (InputWord × List InputWord) → List Subtitle
unfolding join_words
to_subtitles [] = []
to_subtitles ((w, ws) ∷ rs) = join_words w ws ∷ to_subtitles rs

-- Group
unfoldable pub group : List InputWord → ℤ → ℤ → List Subtitle
unfolding to_subtitles goes_on runs
group words max_pause max_words =
    to_subtitles (runs start_span grow_span (goes_on max_pause max_words) (length words) words)
