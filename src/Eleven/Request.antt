-- ===== src/Eleven/Request.antt =====
-- One request to the transcription service (internal/eleven/transcriber.go): parseEleven and
-- requestWithRetries. The numbers of its answer are floating point; `millis` and `percent` convert
-- them.
use Prim.Native.String.{String}
use text.Mathlib.Text.{◌==◌ as str_eq}
use qarau.Common.{ℕ, suc, Bool, Option, none, some, List, [], ◌∷◌, if◌then◌else◌}
use qarau.Words.{Word}
use qarau.Breakdowns.{no_usage}
use qarau.Retries.{Attempt, retry, attempts}

pub record ElevenWord (F : Type 0) : Type 0 where
  pub text : String
  pub start : F
  pub end : F
  pub word_type : String
  pub speaker_id : String
  pub logprob : F

-- The number of a speaker: the map `speakers` as the list of its keys in their order.
unfoldable pub speaker_index : String → List String → ℕ
speaker_index id [] = 0
speaker_index id (s ∷ ss) = if str_eq s id then 0 else suc (speaker_index id ss)

unfoldable pub add_speaker : String → List String → List String
add_speaker id [] = id ∷ []
add_speaker id (s ∷ ss) = if str_eq s id then s ∷ ss else s ∷ add_speaker id ss

module _ {F : Type 0} (millis percent : F → ℕ) where
  abbrev pub is_word : ElevenWord F → Bool
  is_word w = str_eq w.word_type "word"

  abbrev pub pack : ℕ → ElevenWord F → Word
  pack speaker w = record {
    word = w.text;
    start_ms = millis w.start;
    end_ms = millis w.end;
    confidence = percent w.logprob;
    speaker = speaker;
  }

  -- parseEleven, from the speakers that are numbered already.
  unfoldable pub parse_eleven : List String → List (ElevenWord F) → List Word
  unfolding speaker_index add_speaker
  parse_eleven speakers [] = []
  parse_eleven speakers (w ∷ ws) =
      let skipped = parse_eleven speakers ws in
      let rest = parse_eleven (add_speaker w.speaker_id speakers) ws in
      if is_word w then pack (speaker_index w.speaker_id speakers) w ∷ rest else skipped

  -- What a request gives: an error, which is worth another try or not, or an answer, which JSON
  -- decodes or not; and whether the context is done in the wait after it.
  pub record Reply : Type 0 where
    pub error : Bool
    pub retriable : Bool
    pub done : Bool
    pub decoded : Option (List (ElevenWord F))

  abbrev pub parsed_words : Option (List (ElevenWord F)) → Option (List Word)
  unfolding parse_eleven
  parsed_words none = none
  parsed_words (some ws) = some (parse_eleven [] ws)

  abbrev pub to_attempt : Reply → Attempt (List Word)
  unfolding parsed_words
  to_attempt r = record {
    failed = r.error;
    retriable = r.retriable;
    cancelled = r.done;
    usage = none;
    parsed = parsed_words r.decoded;
  }

  -- requestWithRetries
  unfoldable pub request_with_retries : (ℕ → Reply) → ℕ → Option (List Word)
  unfolding retry
  request_with_retries replies n = (retry no_usage (attempts (λ i. to_attempt (replies i)) 0 n)).0

  -- The speakers after the words.
  unfoldable pub speakers_of : List String → List (ElevenWord F) → List String
  unfolding add_speaker
  speakers_of speakers [] = speakers
  speakers_of speakers (w ∷ ws) =
      let skipped = speakers_of speakers ws in
      let rest = speakers_of (add_speaker w.speaker_id speakers) ws in
      if is_word w then rest else skipped
