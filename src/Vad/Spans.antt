-- ===== src/Vad/Spans.antt =====
-- The ranges of the fragments that a collector has gathered: it appends one for each segment.
use mathlib.Core.List.{append-nil, append_assoc}
use qarau.Common.{
  length_laws, ◌/◌, ℕ, ◌≤◌, ◌≡◌, refl, sym, ap, ◌∙◌, List, [], ◌∷◌, ◌++◌, length, Bool, true, false,
  Bool-cases, inl, inr, ◌==◌, if◌then◌else◌,
}
use qarau.Common.Int.{ℤ, pos}
use qarau.Vad.{
  finalize_if_gap, finalize_if_max_frames, do_append_segment, SegmentRange, Fragment, Collector,
  append_segment, append_to_fragment, finalize, length_in_frames,
}
use qarau.Vad.Faithful.{settled}

-- The ranges of fragments, in order.
unfoldable pub spans : List Fragment → List SegmentRange
spans [] = []
spans (f ∷ fs) = f.ranges ++ spans fs

abbrev pub all_spans : Collector → List SegmentRange
all_spans c = spans c.fragments ++ c.current.ranges

-- A fragment without audio has no ranges.
abbrev pub IsTight : Collector → Type 0
IsTight c = length_in_frames c.current ≡ 0 → c.current.ranges ≡ []

pub spans-append : (fs gs : List Fragment) → spans (fs ++ gs) ≡ spans fs ++ spans gs
unfolding spans
spans-append [] gs = refl
spans-append (f ∷ fs) gs =
    rw (spans-append fs gs) (sym (append_assoc f.ranges (spans fs) (spans gs)))

pub finalize-spans : (c : Collector) → all_spans (finalize c) ≡ all_spans c
unfolding finalize spans
finalize-spans c =
    append-nil _
    ∙ spans-append c.fragments (c.current ∷ [])
    ∙ ap (λ q. spans c.fragments ++ q) (append-nil c.current.ranges)

pub finalize_if-spans :
    (b : Bool) (c : Collector) → all_spans (if b then finalize c else c) ≡ all_spans c
finalize_if-spans true c = finalize-spans c
finalize_if-spans false c = refl

pub finalize_if-IsTight :
    (b : Bool) (c : Collector) → IsTight c → IsTight (if b then finalize c else c)
unfolding finalize
finalize_if-IsTight true c h = λ e. refl
finalize_if-IsTight false c h = h

pub settled-spans : (c : Collector) (start : ℤ) → all_spans (settled c start) ≡ all_spans c
unfolding finalize_if_gap
settled-spans c start = elim (Bool-cases (length_in_frames c.current == 0)) [
  | inl e ↦ rw e refl
  | inr e ↦ rw e (finalize_if-spans _ c)
]

pub do_append_segment-spans :
    (c : Collector) (bytes : List ℕ) (from speech to : ℤ)
    → (q : SegmentRange) × (q.real_start ≡ from)
      × (q.real_end ≡ to)
      × (all_spans (do_append_segment c bytes from speech to) ≡ all_spans c ++ q ∷ [])
unfolding do_append_segment finalize_if_max_frames append_to_fragment
do_append_segment-spans c bytes from speech to = (
  record { real_start = from; real_end = to; copy_start = pos (length_in_frames c.current) },
  refl,
  refl,
  finalize_if-spans _ _ ∙ sym (append_assoc (spans c.fragments) c.current.ranges _),
)

pub append_segment-spans :
    (c : Collector) (bytes : List ℕ) (start from speech to : ℤ)
    → (q : SegmentRange) × (q.real_start ≡ from)
      × (q.real_end ≡ to)
      × (all_spans (append_segment c bytes start from speech to) ≡ all_spans c ++ q ∷ [])
unfolding append_segment
append_segment-spans c bytes start from speech to =
    let (q, s, e, spanned) = do_append_segment-spans (settled c start) bytes from speech to in
    (q, s, e, spanned ∙ ap (λ l. l ++ q ∷ []) (settled-spans c start))

pub append_segment-IsTight :
    (c : Collector) (bytes : List ℕ) (start from speech to : ℤ)
    → 2 ≤ length bytes
    → IsTight (append_segment c bytes start from speech to)
unfolding append_segment do_append_segment finalize_if_max_frames append_to_fragment
    length_in_frames
append_segment-IsTight c bytes start from speech to h =
    finalize_if-IsTight _ _ (λ (e : length ((settled c start).current.content ++ bytes) / 2 ≡ 0).
      absurd (grind length_laws))
