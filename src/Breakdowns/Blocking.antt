-- ===== src/Breakdowns/Blocking.antt =====
-- The blocking call of the language model (internal/llm/llm.go): parseLlm, requestWithRetriesV1 and
-- DoSentenceBreakdown.
use Prim.Native.String.{String}
use text.Mathlib.Text.{◌==◌ as str_eq}
use qarau.Common.{ℕ, Bool, true, not, Option, none, some, List, if◌then◌else◌}
use qarau.Breakdowns.{TokenUsage, no_usage}
use qarau.Breakdowns.Model.{RawSentence, Content, arrange_and_convert}
use qarau.Retries.{Attempt, retry, attempts, Outcome, retry-Outcome}

-- What one request gives: a response with its tokens or nil, an error, whether the timeout ends the
-- wait that follows, and the sentences that JSON decodes to.
pub record Reply : Type 0 where
  pub response : Option TokenUsage
  pub error : Bool
  pub timed_out : Bool
  pub decoded : Option (List RawSentence)

abbrev pub convert_decoded : ℕ → Option (List RawSentence) → Option (List Content)
convert_decoded count none = none
convert_decoded count (some sents) = arrange_and_convert count sents

-- parseLlm
abbrev pub parse_llm : ℕ → Option TokenUsage → Option (List RawSentence) → Option (List Content)
parse_llm count none decoded = none
parse_llm count (some u) decoded = convert_decoded count decoded

-- Every error is worth another try.
abbrev pub to_attempt : ℕ → Reply → Attempt (List Content)
to_attempt count r = record {
  failed = r.error;
  retriable = true;
  cancelled = r.timed_out;
  usage = r.response;
  parsed = parse_llm count r.response r.decoded;
}

abbrev pub prompt_attempts : ℕ
prompt_attempts = 3

-- requestWithRetriesV1
unfoldable pub request_with_retries : ℕ → (ℕ → Reply) → ℕ → Option (List Content) × TokenUsage
unfolding retry
request_with_retries count replies n =
    retry no_usage (attempts (λ i. to_attempt count (replies i)) 0 n)

pub record BreakdownResult : Type 0 where
  pub model : String
  pub prompt_version : ℕ
  pub usage : TokenUsage
  pub sentences : Option (List Content)

abbrev pub result_of : String → ℕ → Option (List Content) × TokenUsage → BreakdownResult
result_of model version (none, used) = record {
  model = "";
  prompt_version = 0;
  usage = used;
  sentences = none;
}
result_of model version (some sents, used) = record {
  model = model;
  prompt_version = version;
  usage = used;
  sentences = some sents;
}

-- DoSentenceBreakdown; no sentences stand for an error.
unfoldable pub do_sentence_breakdown :
    String → String → ℕ → Bool → ℕ → (ℕ → Reply) → BreakdownResult
unfolding request_with_retries
do_sentence_breakdown lang model version prompt_fails count replies =
    if not (str_eq lang "ru")
    then result_of model version (none, no_usage)
    else if prompt_fails
    then result_of model version (none, no_usage)
    else result_of model version (request_with_retries count replies prompt_attempts)

-- requestWithRetriesV1, of at most n requests: when it returns breakdowns, they are those of a
-- response that can be converted, and each request before it either had a response that cannot,
-- or failed and the timeout did not end the wait after it. When it returns an error, no request
-- gave breakdowns, and it made all n, or stopped at a failed one after which the timeout ended the
-- wait or no request was left. The tokens it returns are those of all the requests it made.
pub request_with_retries-Outcome :
    (count : ℕ) (replies : ℕ → Reply) (n : ℕ)
    → Outcome no_usage
        (attempts (λ i. to_attempt count (replies i)) 0 n)
        (request_with_retries count replies n)
unfolding request_with_retries
request_with_retries-Outcome count replies n =
    retry-Outcome no_usage (attempts (λ i. to_attempt count (replies i)) 0 n)
