-- ===== src/Retries.antt =====
-- The loop of requestWithRetries (internal/eleven/transcriber.go) and of requestWithRetriesV1
-- (internal/llm/llm.go): calls of a service until one gives an answer.
use qarau.Common.{
  if-cases, if-true, if-false, ℕ, zero, suc, ◌≡◌, refl, ap, ◌∙◌, Bool, true, false, not, ◌&&◌,
  Option, none, some, List, [], ◌∷◌, ◌++◌, if◌then◌else◌, ltb, length, inl, inr, ◌⊎◌, Bool-cases,
  arith,
}
use qarau.Breakdowns.{TokenUsage, add_usage}

-- What a call would give: an error, which may be worth another try, with the context done or not
-- during the wait before it; or a response, of which an answer can be made or not. Its tokens are
-- counted when there is a response.
pub record Attempt (V : Type 0) : Type 0 where
  pub failed : Bool
  pub retriable : Bool
  pub cancelled : Bool
  pub usage : Option TokenUsage
  pub parsed : Option V

abbrev pub count_tokens : TokenUsage → Option TokenUsage → TokenUsage
count_tokens used none = used
count_tokens used (some u) = add_usage used u

module _ {V : Type 0} where
  -- The attempts from a number on.
  abbrev pub attempts : (ℕ → Attempt V) → ℕ → ℕ → List (Attempt V)
  attempts attempt from zero = []
  attempts attempt from (suc n) = attempt from ∷ attempts attempt (suc from) n

  abbrev pub or_next : TokenUsage → Option V → Option V × TokenUsage → Option V × TokenUsage
  or_next used none next = next
  or_next used (some v) next = (some v, used)

  -- The loop over the attempts that are left.
  unfoldable pub retry : TokenUsage → List (Attempt V) → Option V × TokenUsage
  retry used [] = (none, used)
  retry used (a ∷ more) =
      let now = count_tokens used a.usage in
      let next = retry now more in
      if a.failed
      then (if a.retriable && ltb 0 (length more) && not a.cancelled then next else (none, now))
      else or_next now a.parsed next

  -- The answer of an attempt.
  abbrev pub given : Attempt V → Option V
  given a = if a.failed then none else a.parsed

  -- Attempts without an answer, none of which keeps the loop from going on.
  abbrev pub AllRetried : List (Attempt V) → Type 0
  AllRetried [] = Unit {0}
  AllRetried (a ∷ more) =
      (given a ≡ none)
      × ((a.failed ≡ true) → (a.retriable ≡ true) × (a.cancelled ≡ false))
      × AllRetried more

  abbrev pub tokens_of : TokenUsage → List (Attempt V) → TokenUsage
  tokens_of used [] = used
  tokens_of used (a ∷ more) = tokens_of (count_tokens used a.usage) more

  -- An error that ends the loop early.
  abbrev pub IsFinal : Attempt V → Type 0
  IsFinal a = (a.failed ≡ true) × ((a.retriable ≡ false) ⊎ (a.cancelled ≡ true))

  -- The first answer is the result, and the tokens of the calls up to it are counted; without one,
  -- all the calls were made, or those up to an error that no other call follows.
  abbrev pub Outcome : TokenUsage → List (Attempt V) → Option V × TokenUsage → Type 0
  Outcome used more (some v, total) =
      (before : List (Attempt V)) × (a : Attempt V) × (after : List (Attempt V)) × (more
        ≡ before ++ a ∷ after)
      × AllRetried before
      × (given a ≡ some v)
      × (total ≡ tokens_of used (before ++ a ∷ []))
  Outcome used more (none, total) =
      (AllRetried more × (total ≡ tokens_of used more))
      ⊎ ((before : List (Attempt V)) × (a : Attempt V) × (after : List (Attempt V)) × (more
            ≡ before ++ a ∷ after)
          × AllRetried before
          × ((a.failed ≡ true) × ((IsFinal a) ⊎ (after ≡ [])))
          × (total ≡ tokens_of used (before ++ a ∷ [])))

  Outcome-next :
      (used : TokenUsage) (a : Attempt V) (more : List (Attempt V)) (r : Option V × TokenUsage)
      → given a ≡ none
      → ((a.failed ≡ true) → (a.retriable ≡ true) × (a.cancelled ≡ false))
      → Outcome (count_tokens used a.usage) more r
      → Outcome used (a ∷ more) r
  Outcome-next used a more (some v, total) g f (before, b, after, e, all, h, t) =
      (a ∷ before, b, after, ap (◌∷◌ a) e, (g, f, all), h, t)
  Outcome-next used a more (none, total) g f (inl (all, t)) = inl ((g, f, all), t)
  Outcome-next used a more (none, total) g f (inr (before, b, after, e, all, h, t)) =
      inr (a ∷ before, b, after, ap (◌∷◌ a) e, (g, f, all), h, t)

  final :
      (a : Attempt V) (more : List (Attempt V))
      → a.failed ≡ true
      → a.retriable && ltb 0 (length more) && not a.cancelled ≡ false
      → IsFinal a ⊎ (more ≡ [])
  final a [] f c = inr refl
  final a (b ∷ more) f c = elim (Bool-cases a.retriable) [
    | inr r ↦ inl (f, inl r)
    | inl r ↦ inl (f, inr (ground arith))
  ]

  answered :
      (a : Attempt V) (more : List (Attempt V)) (used : TokenUsage) (o : Option V)
      (r : Option V × TokenUsage)
      → a.failed ≡ false
      → a.parsed ≡ o
      → Outcome (count_tokens used a.usage) more r
      → Outcome used (a ∷ more) (or_next (count_tokens used a.usage) o r)
  answered a more used none r f p h =
      Outcome-next used a more r (if-false a.failed none a.parsed f ∙ p)
        (λ q. absurd (ground arith)) h
  answered a more used (some v) r f p h =
      ([], a, more, refl, tt, if-false a.failed none a.parsed f ∙ p, refl)

  pub retry-Outcome :
      (used : TokenUsage) (more : List (Attempt V)) → Outcome used more (retry used more)
  unfolding retry
  retry-Outcome used [] = inl (tt, refl)
  retry-Outcome used (a ∷ more) =
      let now = count_tokens used a.usage in
      let rest = retry-Outcome now more in
      if-cases (Outcome used (a ∷ more)) a.failed
        (if a.retriable && ltb 0 (length more) && not a.cancelled
          then retry now more
          else (none, now))
        (or_next now a.parsed (retry now more))
        (λ f.
          if-cases (Outcome used (a ∷ more)) (a.retriable && ltb 0 (length more) && not a.cancelled)
            (retry now more) (none, now)
            (λ c.
              Outcome-next used a more (retry now more) (if-true a.failed none a.parsed f)
                (λ q. (ground arith, ground arith)) rest)
            (λ c. inr ([], a, more, refl, tt, (f, final a more f c), refl)))
        (λ f. answered a more used a.parsed (retry now more) f refl rest)
