-- ===== src/Examples/Services.antt =====
-- Answers of the two services: a second try that succeeds, and words of two speakers.
use Prim.Native.String.{String}
use qarau.Common.{ℕ, zero, suc, ◌≡◌, ◌↔◌, true, false, none, some, List, [], ◌∷◌, map}
use qarau.Common.Int.{pos}
use qarau.Common.Tables.{In}
use qarau.Common.Sorted.Parts.{keep}
use qarau.Breakdowns.{no_usage}
use qarau.Breakdowns.Model.{RawSentence}
use qarau.Breakdowns.Blocking.{
  Reply, to_attempt, request_with_retries, request_with_retries-Outcome,
}
use qarau.Retries.{attempts, Outcome}
use qarau.Eleven.Request.{ElevenWord, speaker_index, is_word, parse_eleven}
use qarau.Eleven.Speakers.{numbered, parse_eleven-speakers}

abbrev sentences : List RawSentence
sentences =
    record {
      sentence_num = pos 1;
      content = record { sentence = "s"; translations = "t" ∷ []; words = [] };
    }
    ∷ []

-- The first request fails, and the others are answered.
abbrev replies : ℕ → Reply
replies zero = record { response = none; error = true; timed_out = false; decoded = none }
replies (suc n) = record {
  response = some (record { input = pos 70; output = pos 30 });
  error = false;
  timed_out = false;
  decoded = some sentences;
}

request_with_retries-Outcome_example :
    Outcome no_usage
      (attempts (λ i. to_attempt 1 (replies i)) 0 3)
      (request_with_retries 1 replies 3)
request_with_retries-Outcome_example = request_with_retries-Outcome 1 replies 3

-- Numbers stand for the service's floating point numbers.
abbrev same : ℕ → ℕ
same n = n

abbrev said : String → String → ElevenWord ℕ
said kind speaker = record {
  text = "w";
  start = 5;
  end = 8;
  word_type = kind;
  speaker_id = speaker;
  logprob = 90;
}

abbrev answer : List (ElevenWord ℕ)
answer = said "word" "a" ∷ said "spacing" "c" ∷ said "word" "b" ∷ said "word" "a" ∷ []

parse_eleven-speakers_example :
    (ss : List String) × (parse_eleven same same [] answer
      ≡ map (numbered same same ss) (keep (is_word same same) answer))
    × ((v w : ElevenWord ℕ)
        → In v (keep (is_word same same) answer)
        → In w (keep (is_word same same) answer)
        → (speaker_index v.speaker_id ss ≡ speaker_index w.speaker_id ss)
          ↔ (v.speaker_id ≡ w.speaker_id))
parse_eleven-speakers_example = parse_eleven-speakers same same answer
