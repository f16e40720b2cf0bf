-- ===== src/Sentences.antt =====
-- Sentences of a transcription (internal/sentences/segment.go).
pub mod Cut
pub mod Manager
pub mod Rows
pub mod Saved
use qarau.Common.Runs.{runs}
use Prim.Native.String.{◌++◌ as str_append, String}
use Prim.Native.Char.{code}
use qarau.Common.{
  length, not, ltb, ◌+◌, ℕ, Bool, false, ◌&&◌, ◌||◌, List, [], ◌∷◌, leb, ◌==◌, if◌then◌else◌,
}
use qarau.Words.{Word}

pub record Sentence : Type 0 where
  pub start_word_seq : ℕ
  pub end_word_seq : ℕ
  pub start_ms : ℕ
  pub end_ms : ℕ
  pub text : String

abbrev pub max_word_per_sentence : ℕ
max_word_per_sentence = 40

abbrev pub is_one_of : List ℕ → ℕ → Bool
is_one_of [] c = false
is_one_of (d ∷ ds) c = (c == d) || is_one_of ds c

-- unicode.IsSpace
unfoldable pub is_space : ℕ → Bool
is_space c =
    leb 9 c && leb c 13
    || leb 8192 c && leb c 8202
    || is_one_of (32 ∷ 133 ∷ 160 ∷ 5760 ∷ 8232 ∷ 8233 ∷ 8239 ∷ 8287 ∷ 12288 ∷ []) c

-- isTrailingNoise: a space, or one of » " ” ' ’ ) ].
unfoldable pub is_trailing_noise : ℕ → Bool
unfolding is_space
is_trailing_noise c = is_space c || is_one_of (187 ∷ 34 ∷ 8221 ∷ 39 ∷ 8217 ∷ 41 ∷ 93 ∷ []) c

-- The characters of terminalWordPattern: . ! ? …
unfoldable pub is_terminal_rune : ℕ → Bool
is_terminal_rune = is_one_of (46 ∷ 33 ∷ 63 ∷ 8230 ∷ [])

-- Whether the last character that is no trailing noise, if there is one, is terminal: what
-- terminalWordPattern finds at the end of the trimmed word. The flag is the answer so far.
unfoldable pub ends_terminal : Bool → String → Bool
unfolding is_trailing_noise is_terminal_rune
ends_terminal sofar String.[] = sofar
ends_terminal sofar (String.◌∷◌ c s) =
    ends_terminal (if is_trailing_noise (code c) then sofar else is_terminal_rune (code c)) s

abbrev pub is_terminal : Word → Bool
is_terminal w = ends_terminal false w.word

-- strings.Join(parts, " ") of the words' texts: the first, and the others.
unfoldable pub join_words : Word → List Word → String
join_words w [] = w.word
join_words w (v ∷ vs) = str_append w.word (str_append " " (join_words v vs))

-- The words i to j of the loop: the first, the last one so far, and how many they are.
pub record Run : Type 0 where
  pub first : Word
  pub last : Word
  pub count : ℕ

abbrev pub start_run : Word → Run
start_run w = record { first = w; last = w; count = 1 }

abbrev pub grow_run : Run → Word → Run
grow_run r w = record { first = r.first; last = w; count = r.count + 1 }

-- The condition of the inner loop, and what breaks it.
unfoldable pub goes_on : Run → Word → Bool
unfolding ends_terminal
goes_on r next =
    ltb r.count max_word_per_sentence && r.first.speaker == next.speaker && not (is_terminal r.last)

unfoldable pub last_word : Word → List Word → Word
last_word w [] = w
last_word w (v ∷ vs) = last_word v vs

abbrev pub to_sentence : ℕ → Word → List Word → Sentence
to_sentence i w ws = record {
  start_word_seq = i;
  end_word_seq = i + length ws;
  start_ms = w.start_ms;
  end_ms = (last_word w ws).end_ms;
  text = join_words w ws;
}

unfoldable pub to_sentences : ℕ → List (Word × List Word) → List Sentence
unfolding last_word join_words
to_sentences i [] = []
to_sentences i ((w, ws) ∷ rs) = to_sentence i w ws ∷ to_sentences (i + length ws + 1) rs

-- SegmentWordStream
unfoldable pub segment_word_stream : List Word → List Sentence
unfolding to_sentences goes_on runs
segment_word_stream words = to_sentences 0 (runs start_run grow_run goes_on (length words) words)
