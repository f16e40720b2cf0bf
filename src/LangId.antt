-- ===== src/LangId.antt =====
-- The samples of the speech from which the language is identified: SampleForLangID of
-- internal/langid/sample.go and StitchAsFloat32 of internal/vad/segment.go, with the conversion
-- of internal/audio/audio.go.
pub mod Ranges
pub mod Stitched
pub mod Sampled
use qarau.Common.{
  ℕ, zero, suc, ◌+◌, ◌-◌, ◌*◌, ◌/◌, Bool, true, false, not, ◌&&◌, List, [], ◌∷◌, ◌++◌, ◌==◌,
  if◌then◌else◌, leb, ltb, length, take, drop, slice, ◌||◌, ◌%◌,
}
use qarau.Common.Int.{ℤ, int16}
use qarau.Common.Result.{◌>>=◌, Result, ok, err, odd_length, too_short}
use qarau.Vad.{Fragment, length_in_frames}

-- 10 and 30 seconds, in frames.
abbrev pub sample_min_length : ℕ
sample_min_length = 160000

abbrev pub sample_max_length : ℕ
sample_max_length = 480000

-- The prefix: how many fragments it takes to reach the length, and their frames.
unfoldable pub gather_prefix : ℕ → List Fragment → ℕ × ℕ
unfolding length_in_frames
gather_prefix total [] = (0, total)
gather_prefix total (f ∷ fs) =
    let rest = gather_prefix (total + length_in_frames f) fs in
    if ltb total sample_max_length then (suc rest.0, rest.1) else (0, total)

-- The suffix, which grows from the end: how many fragments stay before it, and its frames.
unfoldable pub gather_suffix : List Fragment → ℕ × ℕ
unfolding length_in_frames
gather_suffix [] = (0, 0)
gather_suffix (f ∷ fs) =
    let rest = gather_suffix fs in
    if rest.0 == 0 && ltb rest.1 sample_max_length
    then (0, rest.1 + length_in_frames f)
    else (suc rest.0, rest.1)

-- The frames of the fragment at an index; the code panics behind the end, where it never looks.
unfoldable pub frames_at : ℕ → List Fragment → ℕ
unfolding length_in_frames
frames_at n [] = 0
frames_at zero (f ∷ fs) = length_in_frames f
frames_at (suc n) (f ∷ fs) = frames_at n fs

-- The range in the middle, and its frames.
pub record Window : Type 0 where
  pub lf : ℕ
  pub rg : ℕ
  pub frames : ℕ

abbrev pub grow_left : ℕ → List Fragment → Window → Window
grow_left prefix fs w =
    if leb (suc prefix) w.lf
    then record { lf = w.lf - 1; rg = w.rg; frames = w.frames + frames_at (w.lf - 1) fs }
    else w

abbrev pub grow_right : ℕ → List Fragment → Window → Window
grow_right suffix fs w =
    if leb (suc w.rg) suffix && ltb w.frames sample_max_length
    then record { lf = w.lf; rg = suc w.rg; frames = w.frames + frames_at w.rg fs }
    else w

abbrev pub is_extended : Window → Window → Bool
is_extended v w = not (v.lf == w.lf) || not (v.rg == w.rg)

-- The loop that widens the range, at most `n` times.
unfoldable pub widen : ℕ → ℕ → ℕ → List Fragment → Window → Window
unfolding frames_at
widen zero prefix suffix fs w = w
widen (suc n) prefix suffix fs w =
    let next = grow_right suffix fs (grow_left prefix fs w) in
    let rest = widen n prefix suffix fs next in
    if leb prefix w.lf && leb w.rg suffix && ltb w.frames sample_max_length && is_extended w next
    then rest
    else w

-- A sample is float32; `to_f32` divides by 32768.
module _ {F : Type 0} (to_f32 : ℤ → F) where
  -- MakeF32OfBytes, of each pair of bytes.
  unfoldable pub to_frames : List ℕ → List F
  unfolding int16
  to_frames [] = []
  to_frames (a ∷ []) = []
  to_frames (a ∷ b ∷ rest) = to_f32 (int16 (a + 256 * b)) ∷ to_frames rest

  -- Convert16BitBytesToF32
  unfoldable pub convert : List ℕ → Result (List F)
  unfolding to_frames
  convert pcm = if length pcm / 2 * 2 == length pcm then ok (to_frames pcm) else err odd_length

  -- StitchAsFloat32, from what is stitched already.
  unfoldable pub stitch_as_float32 : ℕ → List F → List Fragment → Result (List F)
  unfolding convert
  stitch_as_float32 cut done [] = ok done
  stitch_as_float32 cut done (f ∷ fs) = convert f.content >>= λ frames.
      let more = done ++ take (cut - length done) frames in
      let rest = stitch_as_float32 cut more fs in if leb cut (length more) then ok more else rest

  abbrev pub third_sample : List F → List F → ℕ → ℕ → List Fragment → Result (List (List F))
  third_sample first second prefix suffix fs =
      let middle = (prefix + suffix) / 2 in
      let w =
        widen (length fs) prefix suffix fs
          (record { lf = middle; rg = suc middle; frames = frames_at middle fs }) in
      if leb prefix middle && ltb middle suffix
      then (if ltb w.frames sample_min_length
          then ok (first ∷ second ∷ [])
          else (stitch_as_float32 sample_max_length [] (slice w.lf w.rg fs) >>= λ third.
              ok (first ∷ second ∷ third ∷ [])))
      else ok (first ∷ second ∷ [])

  abbrev pub second_sample : List F → ℕ → List Fragment → Result (List (List F))
  second_sample first prefix fs =
      let tail = gather_suffix (drop prefix fs) in
      if ltb tail.1 sample_min_length
      then ok (first ∷ [])
      else (stitch_as_float32 sample_max_length [] (drop (prefix + tail.0) fs) >>= λ second.
          third_sample first second prefix (prefix + tail.0) fs)

  -- SampleForLangID
  unfoldable pub sample_for_lang_id : List Fragment → Result (List (List F))
  unfolding gather_prefix gather_suffix widen frames_at stitch_as_float32
  sample_for_lang_id fs =
      let head = gather_prefix 0 fs in
      if ltb head.1 sample_min_length
      then err too_short
      else (stitch_as_float32 sample_max_length [] (take head.0 fs) >>= λ first.
          second_sample first head.0 fs)
