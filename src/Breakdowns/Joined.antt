-- ===== src/Breakdowns/Joined.antt =====
-- joinSentenceBreakdowns goes through both lists once; it finds what a search for each breakdown's
-- sentence finds.
use qarau.Common.{
  ◌≡◌, refl, ap, ◌∙◌, Bool, false, Option, none, some, List, [], ◌∷◌, inl, inr, Bool-cases, arith,
}
use qarau.Common.Int.{ℤ, ltb_ℤ, ◌<ℤ◌, ◌≤ℤ◌}
use qarau.Common.Tables.{find}
use qarau.Store.{SentenceRow}
use qarau.Breakdowns.{BreakdownRow, eq_ℤ}
use qarau.Breakdowns.Requests.{
  SentBreakdown, joined_row, join_head, join_sentence_breakdowns, skip_before,
}

-- Each row is after the given number, and the rows ascend.
abbrev pub AreAfter : ℤ → List SentenceRow → Type 0
AreAfter n [] = Unit {0}
AreAfter n (s ∷ ss) = (n <ℤ s.seq) × AreAfter n ss

abbrev pub AreAscending : List SentenceRow → Type 0
AreAscending [] = Unit {0}
AreAscending (s ∷ ss) = AreAfter s.seq ss × AreAscending ss

abbrev pub AreFrom : ℤ → List BreakdownRow → Type 0
AreFrom n [] = Unit {0}
AreFrom n (b ∷ bs) = (n ≤ℤ b.sentence_seq) × AreFrom n bs

-- The breakdowns need not ascend strictly.
abbrev pub AreOrdered : List BreakdownRow → Type 0
AreOrdered [] = Unit {0}
AreOrdered (b ∷ bs) = AreFrom b.sentence_seq bs × AreOrdered bs

abbrev pub has_seq : ℤ → SentenceRow → Bool
has_seq n s = eq_ℤ s.seq n

abbrev pub with_found : Option SentenceRow → BreakdownRow → List SentBreakdown → List SentBreakdown
with_found none b rest = rest
with_found (some s) b rest = joined_row s b ∷ rest

-- The join as a search for each breakdown.
abbrev pub lookup_join : List SentenceRow → List BreakdownRow → List SentBreakdown
lookup_join ss [] = []
lookup_join ss (b ∷ bs) = with_found (find (has_seq b.sentence_seq) ss) b (lookup_join ss bs)

find-after : (n m : ℤ) (ss : List SentenceRow) → n ≤ℤ m → AreAfter m ss → find (has_seq n) ss ≡ none
unfolding find
find-after n m [] le h = refl
find-after n m (s ∷ ss) le (lt, h) = ground (arith, find-after n m ss le h)

find-skip_before :
    (n m : ℤ) (ss : List SentenceRow)
    → n ≤ℤ m
    → find (has_seq m) (skip_before n ss) ≡ find (has_seq m) ss
unfolding find skip_before
find-skip_before n m [] le = refl
find-skip_before n m (s ∷ ss) le = elim (Bool-cases (ltb_ℤ s.seq n)) [
  | inl e ↦ rw e (find-skip_before n m ss le ∙ ground arith)
  | inr e ↦ rw e refl
]

head-skip_before :
    (ss : List SentenceRow) (b : BreakdownRow) (rest : List SentBreakdown)
    → AreAscending ss
    → join_head (skip_before b.sentence_seq ss) b rest
      ≡ with_found (find (has_seq b.sentence_seq) ss) b rest
unfolding find skip_before
head-skip_before [] b rest h = refl
head-skip_before (s ∷ ss) b rest (after, h) = elim (Bool-cases (ltb_ℤ s.seq b.sentence_seq)) [
  | inl e ↦
      let miss : has_seq b.sentence_seq s ≡ false = ground arith in
      rw (e, miss) (head-skip_before ss b rest h)
  | inr e ↦ elim (Bool-cases (has_seq b.sentence_seq s)) [
    | inl t ↦ rw e (rw t refl)
    | inr t ↦ rw e (rw (t, find-after b.sentence_seq s.seq ss (ground arith) after) refl)
  ]
]

lookup_join-skip_before :
    (n : ℤ) (ss : List SentenceRow) (bs : List BreakdownRow)
    → AreFrom n bs
    → lookup_join (skip_before n ss) bs ≡ lookup_join ss bs
lookup_join-skip_before n ss [] h = refl
lookup_join-skip_before n ss (b ∷ bs) (le, h) =
    rw (find-skip_before n b.sentence_seq ss le)
      (ap (with_found (find (has_seq b.sentence_seq) ss) b) (lookup_join-skip_before n ss bs h))

skip_before-AreAfter :
    (m n : ℤ) (ss : List SentenceRow) → AreAfter m ss → AreAfter m (skip_before n ss)
unfolding skip_before
skip_before-AreAfter m n [] h = tt
skip_before-AreAfter m n (s ∷ ss) (lt, h) = elim (Bool-cases (ltb_ℤ s.seq n)) [
  | inl e ↦ rw e (skip_before-AreAfter m n ss h)
  | inr e ↦ rw e (lt, h)
]

skip_before-AreAscending :
    (n : ℤ) (ss : List SentenceRow) → AreAscending ss → AreAscending (skip_before n ss)
unfolding skip_before
skip_before-AreAscending n [] h = tt
skip_before-AreAscending n (s ∷ ss) (after, h) = elim (Bool-cases (ltb_ℤ s.seq n)) [
  | inl e ↦ rw e (skip_before-AreAscending n ss h)
  | inr e ↦ rw e (after, h)
]

-- For sentences in ascending order and breakdowns in order of their sentences, the join in one
-- pass gives what the search for the sentence of each breakdown gives: each breakdown whose
-- sentence is there, with that sentence's times and text.
pub join_sentence_breakdowns-lookup_join :
    (ss : List SentenceRow) (bs : List BreakdownRow)
    → AreAscending ss
    → AreOrdered bs
    → join_sentence_breakdowns ss bs ≡ lookup_join ss bs
unfolding join_sentence_breakdowns
join_sentence_breakdowns-lookup_join ss [] h k = refl
join_sentence_breakdowns-lookup_join ss (b ∷ bs) h (from, k) =
    ap (join_head (skip_before b.sentence_seq ss) b) (
      join_sentence_breakdowns-lookup_join (skip_before b.sentence_seq ss) bs
        (skip_before-AreAscending b.sentence_seq ss h) k
      ∙ lookup_join-skip_before b.sentence_seq ss bs from)
    ∙ head-skip_before ss b (lookup_join ss bs) h
