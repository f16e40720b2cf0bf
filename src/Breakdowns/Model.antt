-- ===== src/Breakdowns/Model.antt =====
-- The answers of the language model (internal/llm/llm.go and stream.go): the events of a stream,
-- and the order of the sentences in it. The service's events and the decoding of JSON are what
-- the libraries give.
use Prim.Native.String.{String}
use text.Mathlib.Text.{◌==◌ as str_eq}
use qarau.Common.{
  ℕ, zero, suc, ◌*◌, Bool, true, false, not, ◌&&◌, ◌||◌, Option, none, some, List, [], ◌∷◌,
  if◌then◌else◌, ltb,
}
use qarau.Common.Int.{ℤ, pos, pos_part, ◌-ℤ◌, ltb_ℤ}
use qarau.Breakdowns.{WordBreakdown, TokenUsage, no_usage}

-- SentenceBreakdownGenericV1; the words of both of its forms have the same fields.
pub record Content : Type 0 where
  pub sentence : String
  pub translations : List String
  pub words : List WordBreakdown

-- SentenceBreakdownRuV1
pub record RawSentence : Type 0 where
  pub sentence_num : ℤ
  pub content : Content

pub record StreamedSentence : Type 0 where
  pub sent_index : ℤ
  pub content : Content
  pub model : String
  pub prompt_version : ℕ

abbrev pub no_content : Content
no_content = record { sentence = ""; translations = []; words = [] }

-- The slots of arrangeAndConvert, all empty.
unfoldable pub vacant_slots : ℕ → List Content
vacant_slots zero = []
vacant_slots (suc n) = no_content ∷ vacant_slots n

-- The slot of a position, if it is in range.
unfoldable pub slot : ℕ → List Content → Option Content
slot n [] = none
slot zero (c ∷ cs) = some c
slot (suc n) (c ∷ cs) = slot n cs

unfoldable pub set_slot : ℕ → Content → List Content → List Content
set_slot n x [] = []
set_slot zero x (c ∷ cs) = x ∷ cs
set_slot (suc n) x (c ∷ cs) = c ∷ set_slot n x cs

pub record Slots : Type 0 where
  pub result : List Content
  pub vacant : ℤ

unfoldable pub fill : ℕ → Content → Option Content → Slots → Slots
unfolding set_slot ◌-ℤ◌
fill at c none s = s
fill at c (some old) s =
    if not (str_eq old.sentence "")
    then s
    else record { result = set_slot at c s.result; vacant = s.vacant -ℤ pos 1 }

-- One sentence of the answer: a number out of range, or one whose slot is filled, is skipped.
unfoldable pub place : RawSentence → Slots → Slots
unfolding slot fill ◌-ℤ◌
place r s =
    let at = r.sentence_num -ℤ pos 1 in
    if ltb_ℤ at (pos 0) then s else fill (pos_part at) r.content (slot (pos_part at) s.result) s

unfoldable pub place_all : List RawSentence → Slots → Slots
unfolding place
place_all [] s = s
place_all (r ∷ rs) s = place_all rs (place r s)

-- More than half of the slots are vacant.
abbrev pub mostly_vacant : ℕ → ℤ → Bool
mostly_vacant count vacant = ltb_ℤ (pos 0) vacant && ltb count (pos_part vacant * 2)

-- arrangeAndConvert
unfoldable pub arrange_and_convert : ℕ → List RawSentence → Option (List Content)
unfolding place_all vacant_slots
arrange_and_convert count sents =
    let s = place_all sents (record { result = vacant_slots count; vacant = pos count }) in
    if mostly_vacant count s.vacant then none else some s.result

-- The events of the service's stream; a delta's text goes to the decoder, through a pipe to which
-- the write fails, or not: it does once the decoder has met an error and closed the pipe.
pub data Event : Type 0 where
  text_delta : String → Bool → Event
  completed incomplete failed_response : TokenUsage → Event
  stream_error other_event : Event

-- pumpStream: the tokens used, and whether it failed. `broken` is stream.Err() at the end.
unfoldable pub pump_from : TokenUsage → Bool → List Event → TokenUsage × Bool
pump_from usage broken [] = (usage, broken)
pump_from usage broken (text_delta t write_fails ∷ es) =
    let rest = pump_from usage broken es in if write_fails then (usage, true) else rest
pump_from usage broken (completed u ∷ es) = pump_from u broken es
pump_from usage broken (incomplete u ∷ es) = (u, true)
pump_from usage broken (failed_response u ∷ es) = (u, true)
pump_from usage broken (stream_error ∷ es) = (usage, true)
pump_from usage broken (other_event ∷ es) = pump_from usage broken es

unfoldable pub pump_stream : Bool → List Event → TokenUsage × Bool
unfolding pump_from
pump_stream broken events = pump_from no_usage broken events

-- A call of the service: whether a prompt could be built, the events of the stream, and the
-- sentences that the decoder finds in their text, with an error at the end or not.
pub record Call : Type 0 where
  pub prompt_fails : Bool
  pub events : List Event
  pub broken : Bool
  pub decoded : List RawSentence
  pub decode_fails : Bool

-- What a generation gives: the sentences as they came, the tokens, and whether it failed.
pub record Generated : Type 0 where
  pub streamed : List StreamedSentence
  pub usage : TokenUsage
  pub failed : Bool

unfoldable pub to_streamed : String → ℕ → List RawSentence → List StreamedSentence
unfolding ◌-ℤ◌
to_streamed model version [] = []
to_streamed model version (r ∷ rs) =
    record {
      sent_index = r.sentence_num -ℤ pos 1;
      content = r.content;
      model = model;
      prompt_version = version;
    }
    ∷ to_streamed model version rs

-- streamSentenceBreakdownRuV1
unfoldable pub stream_sentence_breakdown : String → ℕ → Call → Generated
unfolding pump_stream to_streamed
stream_sentence_breakdown model version c =
    if c.prompt_fails then record { streamed = []; usage = no_usage; failed = true } else record {
      streamed = to_streamed model version c.decoded;
      usage = (pump_stream c.broken c.events).0;
      failed = (pump_stream c.broken c.events).1 || c.decode_fails;
    }

abbrev pub is_none : {A : Type 0} → Option A → Bool
is_none none = true
is_none (some x) = false

-- DoSentenceBreakdownStream, with the sentences that it hands to its callback.
unfoldable pub do_sentence_breakdown_stream : String → String → ℕ → ℕ → Call → Generated
unfolding stream_sentence_breakdown arrange_and_convert
do_sentence_breakdown_stream lang model version count c =
    if not (str_eq lang "ru")
    then record { streamed = []; usage = no_usage; failed = true }
    else let g = stream_sentence_breakdown model version c in
      record g { failed = g.failed || is_none (arrange_and_convert count c.decoded) }
