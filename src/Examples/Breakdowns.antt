-- ===== src/Examples/Breakdowns.antt =====
-- Breakdowns of three sentences.
use qarau.Breakdowns.History.{history, history-IsBounded, Step, ask, round}
use qarau.Breakdowns.Bounded.{IsBounded}
use qarau.Breakdowns.Stuck.{history-failed_batch, SomeStored}
use qarau.Breakdowns.Emptied.{loop-drains, AllAvailable}
use qarau.Breakdowns.Joined.{join_sentence_breakdowns-lookup_join, lookup_join}
use qarau.Breakdowns.Settled.{is_active, IsSettled}
use qarau.Breakdowns.Requests.{batch_end, enqueue_breakdowns, join_sentence_breakdowns}
use qarau.Breakdowns.Promised.{enqueue_breakdowns-Keeps, Keeps}
use qarau.Breakdowns.Drained.{IsSound}
use qarau.Breakdowns.Batches.{
  is_claimable_batch, has_batch_key, get_breakdown_batch, claimed_batch, failed_batch, new_batch,
}
use qarau.Common.{
  Bool, false, inr, ◌==◌, Bool-cases, ◌≤◌, ◌+◌, ◌≡◌, refl, true, false, some, List, [], ◌∷◌, inl,
  arith,
}
use qarau.Common.Int.{◌+ℤ◌, ltb_ℤ, ℤ, pos, int32}
use qarau.Common.Tables.{update_where, update_returning, oldest, In}
use qarau.Store.{SentenceRow}
use qarau.Service.{quota_day, Clock}
use qarau.Breakdowns.{
  get_llm_quota, TokenUsage, count_sentence_breakdowns, batch_content, count_where, batch_start,
  generation_failed, Batch, Db, BreakdownRow,
}
use qarau.Breakdowns.Model.{RawSentence, completed, text_delta}
use qarau.Breakdowns.Runner.{count_usage, mark_failed, lock_period, try_batch, loop, Turn, Runner}

abbrev sentence : ℤ → SentenceRow
sentence n = record {
  transcription_id = 1;
  seq = n;
  start_word_seq = n;
  end_word_seq = n;
  start_ms = n;
  end_ms = n;
  text = "s";
}

abbrev waiting : Batch
waiting = new_batch 4 1 (pos 0) "ru" 10

abbrev db : Db
db = record {
  sentences = sentence (pos 1) ∷ sentence (pos 0) ∷ sentence (pos 2) ∷ [];
  batches = waiting ∷ [];
  next_batch = 5;
  breakdowns = [];
  llm_quota = [];
}

abbrev answer : ℤ → RawSentence
answer n = record {
  sentence_num = n;
  content = record { sentence = "s"; translations = "t" ∷ []; words = [] };
}

abbrev turn_with : List RawSentence → Turn
turn_with sents = record {
  app = 1000;
  db = 1000;
  locked = λ i. false;
  quota_fails = false;
  claim_fails = false;
  load_fails = false;
  video_fails = false;
  insert_fails = λ i. false;
  usage_fails = false;
  mark_fails = false;
  call = record {
    prompt_fails = false;
    events = text_delta "x" false ∷ completed (record { input = pos 70; output = pos 30 }) ∷ [];
    broken = false;
    decoded = sents;
    decode_fails = false;
  };
}

abbrev runner : Runner
runner = record { name = "r1"; model = "m"; prompt = 1 }

turn-IsSound : (sents : List RawSentence) → IsSound (turn_with sents)
turn-IsSound sents = record {
  free = λ i. refl;
  quota = refl;
  claim = refl;
  load = refl;
  mark = refl;
}

one_active : count_where is_active (waiting ∷ []) ≤ 1
unfolding count_where
one_active = omega arith

-- A day's allowance of 1000 tokens.
abbrev allowance : TokenUsage → Bool
allowance u = ltb_ℤ (u.input +ℤ u.output) (pos 1000)

within_allowance : AllAvailable allowance runner (turn_with (answer (pos 1) ∷ []) ∷ []) db
unfolding get_llm_quota quota_day ◌+ℤ◌
within_allowance = (refl, tt)

loop-drains_example :
    (c : Batch) × In c (loop allowance runner (turn_with (answer (pos 1) ∷ []) ∷ []) db).1.batches
    × (c.id ≡ 4)
    × IsSettled c.state
loop-drains_example =
    loop-drains allowance runner (turn_with (answer (pos 1) ∷ []) ∷ []) db waiting within_allowance
      (turn-IsSound (answer (pos 1) ∷ []), tt) one_active (inl refl) refl

abbrev stored_row : ℤ → BreakdownRow
stored_row n = record {
  transcription_id = 1;
  sentence_seq = n;
  target_lang = "ru";
  model = "m";
  prompt_version = pos 1;
  translations = "t" ∷ [];
  words = [];
}

join_sentence_breakdowns-lookup_join_example :
    join_sentence_breakdowns
      (sentence (pos 0) ∷ sentence (pos 2) ∷ [])
      (stored_row (pos 1) ∷ stored_row (pos 2) ∷ [])
    ≡ lookup_join
        (sentence (pos 0) ∷ sentence (pos 2) ∷ [])
        (stored_row (pos 1) ∷ stored_row (pos 2) ∷ [])
join_sentence_breakdowns-lookup_join_example =
    join_sentence_breakdowns-lookup_join (sentence (pos 0) ∷ sentence (pos 2) ∷ [])
      (stored_row (pos 1) ∷ stored_row (pos 2) ∷ []) (omega arith) (omega arith)

abbrev noon : Clock
noon = record { app = 1000; db = 1000 }

enqueue_breakdowns-Keeps_example :
    Keeps
      (λ u. true)
      noon
      1
      (batch_start (pos 2))
      "kk"
      (batch_content 1 (pos 2) db)
      db
      (enqueue_breakdowns (λ u. true) noon 1 "kk" (pos 2) db)
enqueue_breakdowns-Keeps_example = enqueue_breakdowns-Keeps (λ u. true) noon 1 "kk" (pos 2) db

-- One of three sentences is answered: it is stored, and the batch fails.
abbrev after_failure : Db
after_failure = record db {
  batches =
      failed_batch generation_failed 1000 (claimed_batch "r1" (1000 + lock_period) 1000 waiting)
      ∷ [];
  breakdowns = stored_row (pos 1) ∷ [];
  llm_quota = (0, record { input = pos 70; output = pos 30 }) ∷ [];
}

fails_with_one :
    (try_batch (λ u. true) runner (turn_with (answer (pos 2) ∷ [])) db).1 ≡ after_failure
unfolding try_batch oldest is_claimable_batch mark_failed update_returning count_usage update_where
fails_with_one = refl

abbrev failed : Batch
failed = failed_batch generation_failed 1000 (claimed_batch "r1" (1000 + lock_period) 1000 waiting)

stored_after_failure : SomeStored 1 "ru" (pos 2) after_failure
unfolding count_sentence_breakdowns batch_start batch_end batch_content int32
stored_after_failure = omega arith

after_failure-IsBounded : IsBounded after_failure
unfolding count_where
after_failure-IsBounded = (
  (omega arith, tt, tt),
  λ t. elim (Bool-cases (1 == t)) [ inl e ↦ rw e (omega arith) | inr e ↦ rw e (omega arith) ],
)

failed_key : has_batch_key 1 (batch_start (pos 2)) "ru" failed ≡ true
unfolding batch_start
failed_key = refl

-- What follows the failure: a request for the batch, one for another language, and a round.
abbrev next_steps : List Step
next_steps =
    ask noon 1 "ru" (pos 2)
    ∷ ask noon 1 "kk" (pos 2)
    ∷ round runner (turn_with (answer (pos 1) ∷ []))
    ∷ []

history-failed_batch_example :
    (get_breakdown_batch 1 (batch_start (pos 2)) "ru" (history allowance next_steps after_failure)
      ≡ some failed)
    × SomeStored 1 "ru" (pos 2) (history allowance next_steps after_failure)
    × ((enqueue_breakdowns allowance noon 1 "ru"
          (pos 2)
          (history allowance next_steps after_failure)).1
        ≡ history allowance next_steps after_failure)
history-failed_batch_example =
    history-failed_batch allowance next_steps noon 1 "ru" (pos 2) failed after_failure
      after_failure-IsBounded (inl refl) failed_key refl stored_after_failure

db-IsBounded : IsBounded db
unfolding count_where
db-IsBounded = (
  (omega arith, tt, tt),
  λ t. elim (Bool-cases (1 == t)) [ inl e ↦ rw e (omega arith) | inr e ↦ rw e (omega arith) ],
)

history-IsBounded_example : IsBounded (
    history
      (λ u. true)
      (ask noon 1 "kk" (pos 2) ∷ round runner (turn_with (answer (pos 1) ∷ [])) ∷ [])
      db)
history-IsBounded_example =
    history-IsBounded (λ u. true)
      (ask noon 1 "kk" (pos 2) ∷ round runner (turn_with (answer (pos 1) ∷ [])) ∷ []) db
      db-IsBounded
