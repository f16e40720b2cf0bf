-- ===== src/Eleven/Parts.antt =====
-- The parts of a transcription: they make up the speech, and they are few.
use native.Mathlib.Nat.{suc-mul, mul-le-mul_right}
use qarau.Common.{
  leb, leb→le, ℕ, ◌+◌, ◌*◌, ◌≤◌, ◌<◌, ◌≡◌, refl, sym, ap, ◌∙◌, subst, arith, false, Bool-cases,
  some, List, [], ◌∷◌, ◌++◌, length, ◌⊎◌, inl, inr, ◌==◌,
}
use qarau.Common.Result.{ok}
use qarau.Common.Runs.{runs, Joins, Stops, AreRuns, after_all, runs-AreRuns}
use qarau.Vad.{Fragment, length_in_frames}
use qarau.Eleven.{
  add_frames, is_short, to_parts, partition_fragments, partition, total_length, target_frames,
  parts_max,
}

-- Each further fragment was added while the part had less than the target.
abbrev pub IsNeeded : ℕ → ℕ → List Fragment → Type 0
IsNeeded target frames [] = Unit {0}
IsNeeded target frames (f ∷ fs) =
    (frames < target) × IsNeeded target (frames + length_in_frames f) fs

-- The parts cut the fragments in order. None is empty, and each but the last has the target's
-- length, which it had not without its last fragment.
abbrev pub AreParts : ℕ → List Fragment → List (List Fragment) → Type 0
AreParts target fragments [] = fragments ≡ []
AreParts target fragments (p ∷ ps) =
    (f : Fragment) × (fs : List Fragment) × (rest : List Fragment) × (p ≡ f ∷ fs)
    × (fragments ≡ p ++ rest)
    × IsNeeded target (length_in_frames f) fs
    × ((rest ≡ []) ⊎ (target ≤ total_length p))
    × AreParts target rest ps

module _ (target : ℕ) where
  Joins-IsNeeded :
      (n : ℕ) (fs : List Fragment)
      → Joins length_in_frames add_frames (is_short target) n fs
      → IsNeeded target n fs
  Joins-IsNeeded n [] h = tt
  Joins-IsNeeded n (f ∷ fs) (h, hs) = (ground arith, Joins-IsNeeded (n + length_in_frames f) fs hs)

  after_all-total_length :
      (n : ℕ) (fs : List Fragment)
      → after_all length_in_frames add_frames (is_short target) n fs ≡ n + total_length fs
  unfolding total_length
  after_all-total_length n [] = omega arith
  after_all-total_length n (f ∷ fs) =
      omega (arith, after_all-total_length (n + length_in_frames f) fs)

  Stops-full :
      (n : ℕ) (rest : List Fragment)
      → Stops length_in_frames add_frames (is_short target) n rest
      → (rest ≡ []) ⊎ (target ≤ n)
  Stops-full n [] h = inl refl
  Stops-full n (f ∷ fs) h = inr (ground arith)

  to_parts-AreParts :
      (fragments : List Fragment) (rs : List (Fragment × List Fragment))
      → AreRuns length_in_frames add_frames (is_short target) fragments rs
      → AreParts target fragments (to_parts rs)
  unfolding to_parts total_length
  to_parts-AreParts fragments [] h = h
  to_parts-AreParts fragments ((f, fs) ∷ rs) (rest, cut, joins, stops, more) = (
    f,
    fs,
    rest,
    refl,
    cut,
    Joins-IsNeeded (length_in_frames f) fs joins,
    Stops-full (total_length (f ∷ fs)) rest (
        subst (λ n. Stops length_in_frames add_frames (is_short target) n rest)
          (after_all-total_length (length_in_frames f) fs) stops),
    to_parts-AreParts rest rs more,
  )

total_length-append :
    (fs gs : List Fragment) → total_length (fs ++ gs) ≡ total_length fs + total_length gs
unfolding total_length
total_length-append [] gs = omega arith
total_length-append (f ∷ fs) gs = omega (arith, total_length-append fs gs)

cons_append-nil : (f : Fragment) (fs gs : List Fragment) → f ∷ fs ++ gs ≡ [] → ⊥
cons_append-nil f fs gs h = cc

-- Every part but the last takes its share of the frames.
parts-total :
    (target : ℕ) (fragments : List Fragment) (p : List Fragment) (ps : List (List Fragment))
    → AreParts target fragments (p ∷ ps)
    → length ps * target ≤ total_length fragments
parts-total target fragments p [] h = omega arith
parts-total target fragments p (q ∷ qs)
      (f, fs, rest, e, cut, need, inl none_left, (g, gs, rest', e', cut', need', full', more)) =
    absurd (cons_append-nil g gs rest' (ap (λ x. x ++ rest') (sym e') ∙ sym cut' ∙ none_left))
parts-total target fragments p (q ∷ qs) (f, fs, rest, e, cut, need, inr full, more) =
    rw (cut, total_length-append p rest)
      (omega (arith, full, parts-total target rest q qs more, suc-mul (length qs) target))

-- At most ten parts have the length of the target.
few_targets : (k total : ℕ) → k * target_frames total ≤ total → k ≤ 10
unfolding target_frames
few_targets k total h = elim (Bool-cases (leb k 10)) [
  | inl e ↦ leb→le k 10 e
  | inr e ↦
      let more : 11 * target_frames total ≤ k * target_frames total =
        mul-le-mul_right (target_frames total) (ground arith) in
      absurd (omega (arith, h, more))
]

partition_fragments-AreParts :
    (fragments : List Fragment) (target : ℕ)
    → 1 ≤ length fragments
    → 1 ≤ target
    → (parts : List (List Fragment)) × (partition_fragments fragments target ≡ some parts)
      × AreParts target fragments parts
unfolding partition_fragments
partition_fragments-AreParts fragments target some_fragments some_target = (
  to_parts (runs length_in_frames add_frames (is_short target) (length fragments) fragments),
  ground arith,
  to_parts-AreParts target fragments _ (
      runs-AreRuns length_in_frames add_frames (is_short target) (length fragments) fragments
        (omega arith)),
)

parts_max-parts :
    (total : ℕ) (fragments : List Fragment) (parts : List (List Fragment))
    → total_length fragments ≡ total
    → AreParts (target_frames total) fragments parts
    → length parts ≤ parts_max + 1
parts_max-parts total fragments [] e h = omega arith
parts_max-parts total fragments (p ∷ ps) e h =
    let share : length ps * target_frames total ≤ total =
      subst (λ n. length ps * target_frames total ≤ n) e
        (parts-total (target_frames total) fragments p ps h) in
    omega (arith, few_targets (length ps) total share)

-- For fragments that hold any audio, partition cuts them in order into parts, none of them empty,
-- of which each but the last has target_frames, which it had not without its last fragment; and
-- there are at most parts_max + 1 of them.
pub partition-AreParts :
    (fragments : List Fragment)
    → 1 ≤ total_length fragments
    → (parts : List (List Fragment)) × (partition fragments ≡ ok parts)
      × AreParts (target_frames (total_length fragments)) fragments parts
      × (length parts ≤ parts_max + 1)
unfolding partition target_frames total_length
partition-AreParts fragments some_audio =
    let (parts, made, cut) =
      partition_fragments-AreParts fragments (target_frames (total_length fragments))
        (some_fragments fragments some_audio) (some_target (total_length fragments)) in
    (
      parts,
      rw (zero_test (total_length fragments) some_audio, made) refl,
      cut,
      parts_max-parts (total_length fragments) fragments parts refl cut,
    )
  where
    some_fragments : (fs : List Fragment) → 1 ≤ total_length fs → 1 ≤ length fs
    some_fragments [] h = absurd (omega arith)
    some_fragments (f ∷ fs) h = omega arith

    some_target : (n : ℕ) → 1 ≤ target_frames n
    some_target n = omega arith

    zero_test : (n : ℕ) → 1 ≤ n → (n == 0) ≡ false
    zero_test n h = ground arith
