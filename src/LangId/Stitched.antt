-- ===== src/LangId/Stitched.antt =====
-- Stitching fragments gives all their frames up to the cut.
use qarau.Common.{
  leb→le, ℕ, zero, suc, ◌+◌, ◌-◌, ◌*◌, ◌/◌, min, ◌≤◌, ◌≡◌, refl, sym, ap, ◌∙◌, true, List, [], ◌∷◌,
  ◌++◌, ◌==◌, inl, inr, Bool-cases, leb, length, take, drop, slice, arith, length-append,
  length-take,
}
use qarau.Common.Int.{ℤ}
use qarau.Common.Result.{ok}
use qarau.Vad.{Fragment, length_in_frames}
use qarau.Eleven.{total_length}
use qarau.LangId.{to_frames, convert, stitch_as_float32}

-- Every fragment holds whole frames.
abbrev pub AreWhole : List Fragment → Type 0
AreWhole [] = Unit {0}
AreWhole (f ∷ fs) = (length f.content / 2 * 2 ≡ length f.content) × AreWhole fs

pub AreWhole-take : (n : ℕ) (fs : List Fragment) → AreWhole fs → AreWhole (take n fs)
AreWhole-take zero fs h = tt
AreWhole-take (suc n) [] h = tt
AreWhole-take (suc n) (f ∷ fs) (e, h) = (e, AreWhole-take n fs h)

pub AreWhole-drop : (n : ℕ) (fs : List Fragment) → AreWhole fs → AreWhole (drop n fs)
AreWhole-drop zero fs h = h
AreWhole-drop (suc n) [] h = tt
AreWhole-drop (suc n) (f ∷ fs) (e, h) = AreWhole-drop n fs h

pub total_length-drop :
    (n : ℕ) (fs : List Fragment)
    → total_length fs ≡ total_length (take n fs) + total_length (drop n fs)
unfolding total_length
total_length-drop zero fs = omega arith
total_length-drop (suc n) [] = omega arith
total_length-drop (suc n) (f ∷ fs) = omega (arith, total_length-drop n fs)

pub total_length-slice :
    (l r : ℕ) (fs : List Fragment)
    → l ≤ r
    → total_length (take r fs) ≡ total_length (take l fs) + total_length (slice l r fs)
unfolding total_length
total_length-slice zero r fs le =
    let e : r - 0 ≡ r = omega arith in omega (arith, ap (λ k. total_length (take k fs)) e)
total_length-slice (suc l) r [] le = nothing r (r - suc l)
  where
    nothing :
        (a b : ℕ)
        → total_length (take a []) ≡ total_length (take (suc l) []) + total_length (take b [])
    nothing zero zero = refl
    nothing zero (suc b) = refl
    nothing (suc a) zero = refl
    nothing (suc a) (suc b) = refl
total_length-slice (suc l) zero (f ∷ fs) le = absurd (omega arith)
total_length-slice (suc l) (suc r) (f ∷ fs) le =
    let e : suc r - suc l ≡ r - l = omega arith in
    omega (
      arith,
      total_length-slice l r fs (omega arith),
      ap (λ k. total_length (take k (drop l fs))) e,
    )

drop-nil : (n : ℕ) → drop {A = Fragment} n [] ≡ []
drop-nil zero = refl
drop-nil (suc n) = refl

pub drop-drop : (m n : ℕ) (fs : List Fragment) → drop n (drop m fs) ≡ drop (m + n) fs
drop-drop zero n fs = ap (λ k. drop k fs) (omega arith)
drop-drop (suc m) n [] = drop-nil n ∙ sym (drop-nil (suc m + n))
drop-drop (suc m) n (f ∷ fs) =
    let e : suc m + n ≡ suc (m + n) = omega arith in
    drop-drop m n fs ∙ sym (ap (λ k. drop k (f ∷ fs)) e)

module _ {F : Type 0} (to_f32 : ℤ → F) where
  length-to_frames : (pcm : List ℕ) → length (to_frames to_f32 pcm) ≡ length pcm / 2
  unfolding to_frames
  length-to_frames [] = omega arith
  length-to_frames (a ∷ []) = omega arith
  length-to_frames (a ∷ b ∷ rest) = omega (arith, length-to_frames rest)

  -- What is stitched has all frames, up to the cut.
  unfoldable pub Stitches : ℕ → List F → List Fragment → Type 0
  Stitches cut done fs =
      (sample : List F) × (stitch_as_float32 to_f32 cut done fs ≡ ok sample)
      × (length sample ≡ min cut (length done + total_length fs))

  pub stitch_as_float32-Stitches :
      (cut : ℕ) (done : List F) (fs : List Fragment)
      → length done ≤ cut
      → AreWhole fs
      → Stitches cut done fs
  unfolding stitch_as_float32 total_length convert length_in_frames Stitches
  stitch_as_float32-Stitches cut done [] le h = (done, refl, omega arith)
  stitch_as_float32-Stitches cut done (f ∷ fs) le (whole, h) =
      let more = done ++ take (cut - length done) (to_frames to_f32 f.content) in
      let size : length more ≡ length done + min (cut - length done) (length f.content / 2) =
        omega (
          arith,
          length-append done (take (cut - length done) (to_frames to_f32 f.content)),
          length-take (cut - length done) (to_frames to_f32 f.content),
          length-to_frames f.content,
        ) in
      let even : (length f.content / 2 * 2 == length f.content) ≡ true = ground (arith, whole) in
      let (sample, e, n) = stitch_as_float32-Stitches cut more fs (omega arith) h in
      elim (Bool-cases (leb cut (length more))) [
        | inl full ↦
            (more, rw (even, full) refl, omega (arith, size, leb→le cut (length more) full))
        | inr short ↦ (sample, rw (even, short) e, ground (arith, n, size))
      ]
