-- ===== src/LangId/Sampled.antt =====
-- The samples are long enough, not too long, and come from ranges of fragments apart from each
-- other.
use qarau.Common.{
  take-all, ◌&&◌, ℕ, suc, ◌+◌, ◌-◌, ◌/◌, min, ◌≤◌, ◌<◌, ◌≡◌, refl, ap, List, [], ◌∷◌, ◌⊎◌, inl, inr,
  Bool-cases, leb, ltb, length, take, drop, slice, arith, length-drop,
}
use qarau.Common.Int.{ℤ}
use qarau.Common.Result.{Result, ok, err, too_short}
use qarau.Vad.{Fragment}
use qarau.Eleven.{total_length}
use qarau.LangId.{
  sample_max_length, sample_min_length, gather_prefix, gather_suffix, frames_at, Window, widen,
  stitch_as_float32, third_sample, second_sample, sample_for_lang_id,
}
use qarau.LangId.Ranges.{gather_prefix-lem, gather_suffix-lem, widen-lem, total_length-take-suc}
use qarau.LangId.Stitched.{
  AreWhole, AreWhole-take, AreWhole-drop, total_length-drop, total_length-slice, drop-drop,
  Stitches, stitch_as_float32-Stitches,
}

module _ {F : Type 0} (to_f32 : ℤ → F) where
  -- A sample of these fragments: the first 30 seconds of them, and at least 10.
  abbrev pub IsSample : List Fragment → List F → Type 0
  IsSample fs x =
      (stitch_as_float32 to_f32 sample_max_length [] fs ≡ ok x)
      × (length x ≡ min sample_max_length (total_length fs))
      × (sample_min_length ≤ length x)

  stitch-IsSample :
      (fs : List Fragment)
      → AreWhole fs
      → sample_min_length ≤ total_length fs
      → (x : List F) × IsSample fs x
  unfolding Stitches
  stitch-IsSample fs h le =
      let (x, e, n) = stitch_as_float32-Stitches to_f32 sample_max_length [] fs (omega arith) h in
      (x, (e, omega (arith, n), omega (arith, n)))

  -- One sample from the beginning, then one from the end behind it, then one between the two, which
  -- has 30 seconds or takes all that is between.
  abbrev pub AreApart : List Fragment → List (List F) → Type 0
  AreApart fs [] = ⊥
  AreApart fs (x ∷ []) = (p : ℕ) × (p ≤ length fs) × IsSample (take p fs) x
  AreApart fs (x ∷ y ∷ []) =
      (p : ℕ) × (q : ℕ) × (p ≤ q)
      × (q ≤ length fs)
      × IsSample (take p fs) x
      × IsSample (drop q fs) y
  AreApart fs (x ∷ y ∷ z ∷ []) =
      (p : ℕ) × (l : ℕ) × (r : ℕ) × (q : ℕ) × (p ≤ l)
      × (l < r)
      × (r ≤ q)
      × (q ≤ length fs)
      × IsSample (take p fs) x
      × IsSample (drop q fs) y
      × IsSample (slice l r fs) z
      × ((sample_max_length ≤ length z) ⊎ ((l ≡ p) × (r ≡ q)))
  AreApart fs (x ∷ y ∷ z ∷ w ∷ ws) = ⊥

  Gives : List Fragment → Result (List (List F)) → Type 0
  Gives fs r = (xs : List (List F)) × (r ≡ ok xs) × AreApart fs xs

  third_sample-Gives :
      (x y : List F) (p q : ℕ) (fs : List Fragment)
      → AreWhole fs
      → p ≤ q
      → q ≤ length fs
      → IsSample (take p fs) x
      → IsSample (drop q fs) y
      → Gives fs (third_sample to_f32 x y p q fs)
  unfolding Gives
  third_sample-Gives x y p q fs h le len first second =
      elim (Bool-cases (leb p ((p + q) / 2) && ltb ((p + q) / 2) q)) [
        | inr f ↦ (x ∷ y ∷ [], rw f refl, (p, q, le, len, first, second))
        | inl t ↦
            (let middle = (p + q) / 2 in
              let start : Window = record {
                lf = middle;
                rg = suc middle;
                frames = frames_at middle fs;
              } in
              let ((a, b, c, e), wide) =
                widen-lem (length fs) p q fs start
                  (ground arith, omega arith, ground arith, total_length-take-suc middle fs)
                  (omega arith) in
              let w = widen (length fs) p q fs start in
              let size = total_length-slice w.lf w.rg fs (omega (arith, b)) in
              elim (Bool-cases (ltb w.frames sample_min_length)) [
                | inl short ↦ (x ∷ y ∷ [], rw (t, short) refl, (p, q, le, len, first, second))
                | inr long ↦
                    let (z, (f, n, m)) =
                      stitch-IsSample (slice w.lf w.rg fs)
                        (AreWhole-take (w.rg - w.lf) (drop w.lf fs) (AreWhole-drop w.lf fs h))
                        (ground (arith, e, size)) in
                    (
                      x ∷ y ∷ z ∷ [],
                      rw (t, long, f) refl,
                      (
                        p,
                        w.lf,
                        w.rg,
                        q,
                        a,
                        b,
                        c,
                        len,
                        first,
                        second,
                        (f, n, m),
                        elim wide [
                          | inl far ↦ inl (omega (arith, n, e, size, far))
                          | inr all ↦ inr all
                        ],
                      ),
                    )
              ])
      ]

  second_sample-Gives :
      (x : List F) (p : ℕ) (fs : List Fragment)
      → AreWhole fs
      → p ≤ length fs
      → IsSample (take p fs) x
      → Gives fs (second_sample to_f32 x p fs)
  unfolding Gives
  second_sample-Gives x p fs h len first =
      let tail = gather_suffix (drop p fs) in
      let (e, b, c) = gather_suffix-lem (drop p fs) in
      elim (Bool-cases (ltb tail.1 sample_min_length)) [
        | inl short ↦ (x ∷ [], rw short refl, (p, len, first))
        | inr long ↦
            let (y, second) =
              stitch-IsSample (drop (p + tail.0) fs) (AreWhole-drop (p + tail.0) fs h)
                (ground (arith, e, ap total_length (drop-drop p tail.0 fs))) in
            let (xs, f, apart) =
              third_sample-Gives x y p (p + tail.0) fs h (omega arith)
                (omega (arith, b, length-drop p fs, len)) first second in
            (xs, rw (long, second.0) f, apart)
      ]

  -- SampleForLangID of fragments of whole frames: it fails exactly when the speech is shorter than
  -- 10 seconds. Otherwise it gives one to three samples of 10 to 30 seconds, from ranges of
  -- fragments apart from each other: from the beginning, from the end, and from between; the last
  -- has 30 seconds or takes all that the other two leave.
  pub sample_for_lang_id-AreApart :
      (fs : List Fragment)
      → AreWhole fs
      → ((total_length fs < sample_min_length) × (sample_for_lang_id to_f32 fs ≡ err too_short))
        ⊎ ((sample_min_length ≤ total_length fs)
            × ((xs : List (List F)) × (sample_for_lang_id to_f32 fs ≡ ok xs) × AreApart fs xs))
  unfolding sample_for_lang_id Gives
  sample_for_lang_id-AreApart fs h =
      let head = gather_prefix 0 fs in
      let (e, b, c) = gather_prefix-lem 0 fs in
      let all = total_length-drop head.0 fs in
      elim (Bool-cases (ltb head.1 sample_min_length)) [
        | inl short ↦ inl (
          elim c [
            | inl far ↦ absurd (ground (arith, far))
            | inr whole ↦
                ground (arith, e, ap total_length (take-all head.0 fs (omega (arith, whole))))
          ],
          rw short refl,
        )
        | inr long ↦
            let (x, first) =
              stitch-IsSample (take head.0 fs) (AreWhole-take head.0 fs h) (ground (arith, e)) in
            let (xs, f, apart) = second_sample-Gives x head.0 fs h b first in
            inr (ground (arith, e, all), (xs, rw (long, first.0) f, apart))
      ]
