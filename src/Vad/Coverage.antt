-- ===== src/Vad/Coverage.antt =====
-- On segments in time order the segmentation returns, and its ranges cover all speech without
-- overlap.
use qarau.Vad.Spans.{
  append_segment-IsTight, append_segment-spans, finalize-spans, all_spans, spans, IsTight,
}
use qarau.Vad.Padding.{segment_step-pos, frames_hold, last_frame, first_frame}
use qarau.Vad.Segment.{
  to_frames, segment_audio, segment_loop, has_next, total_frames, total_millis, next_millis,
  Recording, Segment,
}
use mathlib.Core.List.{append-nil, append_assoc}
use qarau.Common.{
  subst, not, ◌%◌, slice, ◌<◌, min, ◌⊎◌, ◌/◌, ◌*◌, ℕ, ◌≤◌, ◌≡◌, refl, sym, ap, ◌∙◌, List, [], ◌∷◌,
  ◌++◌, length, arith, Bool, true, false, Bool-cases, inl, inr, ◌==◌,
}
use qarau.Common.Int.{ℤ, pos}
use qarau.Vad.{
  new_collector, finalize_if_present, ok, SegmentRange, Fragment, Collector, append_segment,
  finalize, length_in_frames,
}
use qarau.Vad.Layout.{length-frames}

-- The ranges lie in the recording in order and apart, from the frame lo on, and each holds the
-- speech of one segment, given in milliseconds, as far as the recording goes.
abbrev pub Covers : Recording → ℕ → List (ℕ × ℕ) → List SegmentRange → Type 0
Covers a lo [] [] = Unit {0}
Covers a lo ((start, end) ∷ ts) (q ∷ qs) =
    (from : ℕ) × (to : ℕ) × (q.real_start ≡ pos from)
    × (q.real_end ≡ pos to)
    × (lo ≤ from)
    × (from ≤ start * 16)
    × (min (total_frames a) (end * 16) ≤ to)
    × (to ≤ total_frames a)
    × Covers a to ts qs
Covers a lo _ _ = ⊥

-- Segments in time order, none empty, in milliseconds of the recording: each starts inside it and
-- ends by its length rounded up.
abbrev pub IsOrdered : Recording → ℕ → List (ℕ × ℕ) → Type 0
IsOrdered a prev [] = prev ≤ total_millis a
IsOrdered a prev ((start, end) ∷ ts) =
    (prev ≤ start) × (start < end) × (start * 16 < total_frames a) × IsOrdered a end ts

module _ (S : Type 0) (seconds_to_millis : S → ℤ) where
  -- The detector's segments are these times.
  abbrev pub Reports : List (Segment S) → List (ℕ × ℕ) → Type 0
  Reports [] [] = Unit {0}
  Reports (r ∷ rs) ((start, end) ∷ ts) =
      (seconds_to_millis r.speech_start_at ≡ pos start)
      × (seconds_to_millis r.speech_end_at ≡ pos end)
      × Reports rs ts
  Reports _ _ = ⊥

  -- The time at which the next segment starts, or the recording ends.
  abbrev next_time : Recording → List (ℕ × ℕ) → ℕ
  next_time a [] = total_millis a
  next_time a ((start, end) ∷ ts) = start

  next_millis-pos :
      (a : Recording) (rs : List (Segment S)) (ts : List (ℕ × ℕ))
      → Reports rs ts
      → next_millis S seconds_to_millis a rs ≡ pos (next_time a ts)
  next_millis-pos a [] [] h = refl
  next_millis-pos a (r ∷ rs) ((start, end) ∷ ts) h = h.0
  next_millis-pos a [] (t ∷ ts) h = absurd h
  next_millis-pos a (r ∷ rs) [] h = absurd h

  end-le-next :
      (a : Recording) (end : ℕ) (ts : List (ℕ × ℕ)) → IsOrdered a end ts → end ≤ next_time a ts
  end-le-next a end [] o = o
  end-le-next a end ((s, e) ∷ ts) o = o.0

  -- Where the frames of the segment after a segment that ends at `prev` may begin.
  abbrev room : Bool → ℕ → ℕ → List (ℕ × ℕ) → ℕ
  room first pad prev [] = prev * 16
  room first pad prev ((start, end) ∷ ts) = first_frame first pad prev start

  last-le-room :
      (a : Recording) (pad end : ℕ) (rs : List (Segment S)) (ts : List (ℕ × ℕ))
      → Reports rs ts
      → IsOrdered a end ts
      → (ts ≡ [])
        ⊎ (last_frame a (has_next S seconds_to_millis rs) pad (next_time a ts) end
            ≤ room false pad end ts)
  last-le-room a pad end [] [] h o = inl refl
  last-le-room a pad end (r ∷ rs) ((start, stop) ∷ ts) h o = inr (ground arith)
  last-le-room a pad end [] (t ∷ ts) h o = absurd h
  last-le-room a pad end (r ∷ rs) [] h o = absurd h

  -- A run of the loop that returns, with the ranges that it has added.
  abbrev LoopCovers :
      Recording → Bool → ℕ → ℕ → Collector → List (Segment S) → List (ℕ × ℕ) → Type 0
  LoopCovers a first prev lo c rs ts =
      (d : Collector) × (qs : List SegmentRange) × (segment_loop S seconds_to_millis a first
          (pos prev) c rs
        ≡ ok d)
      × (all_spans d ≡ all_spans c ++ qs)
      × Covers a lo ts qs
      × IsTight d

  segment_loop-covers :
      (a : Recording) (first : Bool) (pad prev lo : ℕ) (c : Collector) (rs : List (Segment S))
      (ts : List (ℕ × ℕ))
      → a.pad_millis ≡ pos pad
      → Reports rs ts
      → IsOrdered a prev ts
      → IsTight c
      → (ts ≡ []) ⊎ (lo ≤ room first pad prev ts)
      → LoopCovers a first prev lo c rs ts
  unfolding segment_loop
  segment_loop-covers a first pad prev lo c [] [] p h o t l =
      (c, [], refl, sym (append-nil _), tt, t)
  segment_loop-covers a first pad prev lo c [] (u ∷ ts) p h o t l = absurd h
  segment_loop-covers a first pad prev lo c (r ∷ rs) [] p h o t l = absurd h
  segment_loop-covers a first pad prev lo c (r ∷ rs) ((start, end) ∷ ts) p (hs, he, h)
        (le, lt, inside, o) t l =
      finish (
        segment_loop-covers a false pad end to c1 rs ts p h o
          (append_segment-IsTight c bytes (pos (start * 16)) (pos from) (pos (end * 16)) (pos to)
            (omega (arith, length-frames a.pcm from to (omega arith) hold.3)))
          (last-le-room a pad end rs ts h o))
    where
      from : ℕ
      from = first_frame first pad prev start

      to : ℕ
      to = last_frame a (has_next S seconds_to_millis rs) pad (next_time a ts) end

      bytes : List ℕ
      bytes = slice (from * 2) (to * 2) a.pcm

      c1 : Collector
      c1 = append_segment c bytes (pos (start * 16)) (pos from) (pos (end * 16)) (pos to)

      hold :
          (from ≤ start * 16)
          × (start * 16 < to)
          × (min (total_frames a) (end * 16) ≤ to)
          × (to * 2 ≤ length a.pcm)
      hold =
          frames_hold a first (has_next S seconds_to_millis rs) pad prev start end (next_time a ts)
            inside lt

      finish :
          LoopCovers a false end to c1 rs ts
          → LoopCovers a first prev lo c (r ∷ rs) ((start, end) ∷ ts)
      finish (d, qs, runs, spanned, covers, tight) =
          let (q, s, e, added) =
            append_segment-spans c bytes (pos (start * 16)) (pos from) (pos (end * 16)) (pos to) in
          (
            d,
            q ∷ qs,
            rw
                (
                  hs,
                  he,
                  next_millis-pos a rs ts h,
                  segment_step-pos a first (has_next S seconds_to_millis rs) pad prev start end
                      (next_time a ts) c p le lt (end-le-next a end ts o) inside,
                )
                runs,
            spanned ∙ ap (λ k. k ++ qs) added ∙ append_assoc (all_spans c) (q ∷ []) qs,
            (from, to, s, e, ground (arith, l), hold.0, hold.2, omega arith, covers),
            tight,
          )

  last_finalize-spans :
      (c : Collector) → IsTight c → spans (finalize_if_present c).fragments ≡ all_spans c
  unfolding finalize_if_present finalize
  last_finalize-spans c t = elim (Bool-cases (length_in_frames c.current == 0)) [
    | inl e ↦ rw e (sym (append-nil _) ∙ ap (λ q. spans c.fragments ++ q) (sym (t (ground arith))))
    | inr e ↦ rw e (sym (append-nil _) ∙ finalize-spans c)
  ]

  -- Let the recording have whole frames, and let the detector report segments in time order, none
  -- of them empty, each starting inside the recording and ending by its length in milliseconds,
  -- rounded up. Then SegmentAudioByTimestampRanges with a padding of `pad` milliseconds and any
  -- limits returns fragments (it neither panics nor drops a segment): their ranges, taken in
  -- order, are one for each segment, lie in the recording one behind the other without overlap,
  -- and each holds the frames of its segment's speech, up to the end of the recording.
  pub segment_audio-Covers :
      (pcm : List ℕ) (segments : List (Segment S)) (ts : List (ℕ × ℕ)) (pad : ℕ)
      (gap_max fragment_max : ℤ)
      → let a : Recording = record { pcm = pcm; pad_millis = pos pad } in
        length pcm % 2 ≡ 0
        → Reports segments ts
        → IsOrdered a 0 ts
        → (fs : List Fragment) × (segment_audio S seconds_to_millis pcm segments
              (pos pad)
              gap_max
              fragment_max
            ≡ ok fs)
          × Covers a 0 ts (spans fs)
  unfolding segment_audio new_collector spans
  segment_audio-Covers pcm segments ts pad gap_max fragment_max even h o =
      let (d, qs, runs, spanned, covers, tight) =
        segment_loop-covers (record { pcm = pcm; pad_millis = pos pad }) true pad 0 0
          (new_collector (record {
            fragment_max_frames = to_frames fragment_max;
            gap_max_frames = to_frames gap_max;
          }))
          segments ts refl h o (λ e. refl) (inr (omega arith)) in
      (
        (finalize_if_present d).fragments,
        rw (whole, runs) refl,
        subst (Covers (record { pcm = pcm; pad_millis = pos pad }) 0 ts)
            (sym (last_finalize-spans d tight ∙ spanned)) covers,
      )
    where
      whole : not (length pcm == length pcm / 2 * 2) ≡ false
      whole = ground arith
