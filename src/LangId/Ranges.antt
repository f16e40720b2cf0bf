-- ===== src/LangId/Ranges.antt =====
-- The ranges of fragments that SampleForLangID chooses, and their frames.
use qarau.Common.{
  if-cases, ℕ, zero, suc, ◌+◌, ◌-◌, ◌≤◌, ◌<◌, ◌≡◌, refl, ap, ◌∙◌, false, ◌&&◌, List, [], ◌∷◌, ◌==◌,
  ◌⊎◌, inl, inr, Bool-cases, leb, ltb, length, take, drop, arith,
}
use qarau.Vad.{Fragment, length_in_frames}
use qarau.Eleven.{total_length}
use qarau.LangId.{
  sample_max_length, gather_prefix, gather_suffix, frames_at, Window, grow_left, grow_right,
  is_extended, widen,
}

pub total_length-take-suc :
    (i : ℕ) (fs : List Fragment)
    → total_length (take (suc i) fs) ≡ total_length (take i fs) + frames_at i fs
unfolding total_length frames_at length_in_frames
total_length-take-suc zero [] = refl
total_length-take-suc (suc i) [] = refl
total_length-take-suc zero (f ∷ fs) = omega arith
total_length-take-suc (suc i) (f ∷ fs) = omega (arith, total_length-take-suc i fs)

-- The prefix is whole, or long enough.
pub gather_prefix-lem :
    (total : ℕ) (fs : List Fragment)
    → ((gather_prefix total fs).1 ≡ total + total_length (take (gather_prefix total fs).0 fs))
      × ((gather_prefix total fs).0 ≤ length fs)
      × ((sample_max_length ≤ (gather_prefix total fs).1)
          ⊎ ((gather_prefix total fs).0 ≡ length fs))
unfolding gather_prefix total_length length_in_frames
gather_prefix-lem total [] = (omega arith, omega arith, inr refl)
gather_prefix-lem total (f ∷ fs) =
    let (e, b, c) = gather_prefix-lem (total + length_in_frames f) fs in
    elim (Bool-cases (ltb total sample_max_length)) [
      | inl h ↦ rw h (omega (arith, e), omega (arith, b), ground (arith, c))
      | inr h ↦ rw h (omega arith, omega arith, inl (ground arith))
    ]

pub gather_suffix-lem :
    (fs : List Fragment)
    → ((gather_suffix fs).1 ≡ total_length (drop (gather_suffix fs).0 fs))
      × ((gather_suffix fs).0 ≤ length fs)
      × ((sample_max_length ≤ (gather_suffix fs).1) ⊎ ((gather_suffix fs).0 ≡ 0))
unfolding gather_suffix total_length length_in_frames
gather_suffix-lem [] = (refl, omega arith, inr refl)
gather_suffix-lem (f ∷ fs) =
    let (e, b, c) = gather_suffix-lem fs in
    elim (Bool-cases ((gather_suffix fs).0 == 0 && ltb (gather_suffix fs).1 sample_max_length)) [
      | inl h ↦ rw h (
        let z : (gather_suffix fs).0 ≡ 0 = ground arith in
            omega (arith, e, ap (λ k. total_length (drop k fs)) z),
        omega arith,
        inr refl,
      )
      | inr h ↦ rw h (e, omega (arith, b), elim c [ inl x ↦ inl x | inr z ↦ inl (ground arith) ])
    ]

-- The frames of a window are those of its fragments, and it lies between the other samples.
abbrev pub IsWindow : ℕ → ℕ → List Fragment → Window → Type 0
IsWindow prefix suffix fs w =
    (prefix ≤ w.lf)
    × (w.lf < w.rg)
    × (w.rg ≤ suffix)
    × (total_length (take w.rg fs) ≡ total_length (take w.lf fs) + w.frames)

grow_left-IsWindow :
    (prefix suffix : ℕ) (fs : List Fragment) (w : Window)
    → IsWindow prefix suffix fs w
    → IsWindow prefix suffix fs (grow_left prefix fs w)
grow_left-IsWindow prefix suffix fs w (a, b, c, e) = elim (Bool-cases (leb (suc prefix) w.lf)) [
  | inl h ↦
      let lt : prefix < w.lf = ground arith in
      rw h (
        omega arith,
        omega arith,
        c,
        omega (
          arith,
          e,
          total_length-take-suc (w.lf - 1) fs,
          let q : w.lf ≡ suc (w.lf - 1) = omega (arith, lt) in ap (λ k. total_length (take k fs)) q,
        ),
      )
  | inr h ↦ rw h (a, b, c, e)
]

grow_right-IsWindow :
    (prefix suffix : ℕ) (fs : List Fragment) (w : Window)
    → IsWindow prefix suffix fs w
    → IsWindow prefix suffix fs (grow_right suffix fs w)
grow_right-IsWindow prefix suffix fs w (a, b, c, e) =
    elim (Bool-cases (leb (suc w.rg) suffix && ltb w.frames sample_max_length)) [
      | inl h ↦ rw h (a, omega arith, ground arith, omega (arith, total_length-take-suc w.rg fs))
      | inr h ↦ rw h (a, b, c, e)
    ]

-- The loop ends when the window is long enough or takes the whole middle.
abbrev pub IsWide : ℕ → ℕ → Window → Type 0
IsWide prefix suffix w = (sample_max_length ≤ w.frames) ⊎ ((w.lf ≡ prefix) × (w.rg ≡ suffix))

grow_IsWindow :
    (prefix suffix : ℕ) (fs : List Fragment) (w : Window)
    → IsWindow prefix suffix fs w
    → IsWindow prefix suffix fs (grow_right suffix fs (grow_left prefix fs w))
grow_IsWindow prefix suffix fs w h =
    grow_right-IsWindow prefix suffix fs (grow_left prefix fs w)
      (grow_left-IsWindow prefix suffix fs w h)

grow_left-cases :
    (prefix : ℕ) (fs : List Fragment) (w : Window)
    → ((prefix < w.lf)
        × ((grow_left prefix fs w).lf ≡ w.lf - 1)
        × ((grow_left prefix fs w).rg ≡ w.rg))
      ⊎ ((w.lf ≤ prefix) × (grow_left prefix fs w ≡ w))
grow_left-cases prefix fs w = elim (Bool-cases (leb (suc prefix) w.lf)) [
  | inl h ↦ inl (ground arith, rw h refl, rw h refl)
  | inr h ↦ inr (ground arith, rw h refl)
]

grow_right-cases :
    (suffix : ℕ) (fs : List Fragment) (w : Window)
    → (((grow_right suffix fs w).lf ≡ w.lf) × ((grow_right suffix fs w).rg ≡ suc w.rg))
      ⊎ (((suffix ≤ w.rg) ⊎ (sample_max_length ≤ w.frames)) × (grow_right suffix fs w ≡ w))
grow_right-cases suffix fs w =
    elim (Bool-cases (leb (suc w.rg) suffix && ltb w.frames sample_max_length)) [
      | inl h ↦ inl (rw h refl, rw h refl)
      | inr h ↦ inr (ground arith, rw h refl)
    ]

-- A step that extends the window takes a fragment more, and one that does not finds it wide.
grow-rest :
    (prefix suffix : ℕ) (fs : List Fragment) (w : Window)
    → IsWindow prefix suffix fs w
    → (w.rg + (grow_right suffix fs (grow_left prefix fs w)).lf
        < (grow_right suffix fs (grow_left prefix fs w)).rg + w.lf)
      ⊎ (IsWide prefix suffix w × (grow_right suffix fs (grow_left prefix fs w) ≡ w))
grow-rest prefix suffix fs w (a, b, c, e) = go (grow_left prefix fs w) (grow_left-cases prefix fs w)
  where
    go :
        (v : Window)
        → ((prefix < w.lf) × (v.lf ≡ w.lf - 1) × (v.rg ≡ w.rg)) ⊎ ((w.lf ≤ prefix) × (v ≡ w))
        → (w.rg + (grow_right suffix fs v).lf < (grow_right suffix fs v).rg + w.lf)
          ⊎ (IsWide prefix suffix w × (grow_right suffix fs v ≡ w))
    go v (inl (l, p, q)) = elim (grow_right-cases suffix fs v) [
      | inl (x, y) ↦ inl (omega (arith, x, y, p, q, l))
      | inr (x, y) ↦ inl (omega (arith, ap Window.lf y, ap Window.rg y, p, q, l))
    ]
    go v (inr (l, p)) = elim (grow_right-cases suffix fs v) [
      | inl (x, y) ↦ inl (omega (arith, x, y, ap Window.lf p, ap Window.rg p))
      | inr (inl x, y) ↦ inr (inr (omega arith, omega (arith, x, ap Window.rg p)), y ∙ p)
      | inr (inr x, y) ↦ inr (inl (omega (arith, x, ap Window.frames p)), y ∙ p)
    ]

pub widen-lem :
    (n prefix suffix : ℕ) (fs : List Fragment) (w : Window)
    → IsWindow prefix suffix fs w
    → suffix - prefix ≤ n + (w.rg - w.lf)
    → IsWindow prefix suffix fs (widen n prefix suffix fs w)
      × IsWide prefix suffix (widen n prefix suffix fs w)
unfolding widen
widen-lem zero prefix suffix fs w (a, b, c, e) m = ((a, b, c, e), inr (omega arith, omega arith))
widen-lem (suc n) prefix suffix fs w h m =
    let next = grow_right suffix fs (grow_left prefix fs w) in
    if-cases (λ v. IsWindow prefix suffix fs v × IsWide prefix suffix v)
      (leb prefix w.lf && leb w.rg suffix && ltb w.frames sample_max_length && is_extended w next)
      (widen n prefix suffix fs next) w
      (λ t.
        widen-lem n prefix suffix fs next (grow_IsWindow prefix suffix fs w h)
          (measure next (ground arith) (grow-rest prefix suffix fs w h)))
      (λ f. (h, wide next h f (grow-rest prefix suffix fs w h)))
  where
    measure :
        (v : Window)
        → w.frames < sample_max_length
        → (w.rg + v.lf < v.rg + w.lf) ⊎ (IsWide prefix suffix w × (v ≡ w))
        → suffix - prefix ≤ n + (v.rg - v.lf)
    measure v lt (inl more) = omega arith
    measure v lt (inr (inl far, e)) = absurd (omega arith)
    measure v lt (inr (inr (p, q), e)) = omega (arith, p, q, ap Window.lf e, ap Window.rg e)

    wide :
        (v : Window)
        → IsWindow prefix suffix fs w
        → (leb prefix w.lf && leb w.rg suffix && ltb w.frames sample_max_length && is_extended w v)
          ≡ false
        → (w.rg + v.lf < v.rg + w.lf) ⊎ (IsWide prefix suffix w × (v ≡ w))
        → IsWide prefix suffix w
    wide v (a, b, c, e) f (inl more) = ground arith
    wide v k f (inr (h, e)) = h
