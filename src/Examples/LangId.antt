-- ===== src/Examples/LangId.antt =====
-- The samples of a silence of 25 seconds in fragments of 12.5, 12.5 and 0 seconds.
use qarau.Common.{
  ℕ, zero, suc, ◌*◌, ◌/◌, ◌≡◌, ◌≤◌, ◌<◌, refl, ap, List, [], ◌∷◌, length, arith, ◌⊎◌,
}
use qarau.Common.Int.{ℤ, pos}
use qarau.Common.Result.{ok, err, too_short}
use qarau.Vad.{Fragment}
use qarau.Eleven.{total_length}
use qarau.LangId.{sample_min_length, sample_for_lang_id}
use qarau.LangId.Stitched.{AreWhole}
use qarau.LangId.Sampled.{sample_for_lang_id-AreApart, AreApart}

unfoldable zeros : ℕ → List ℕ
zeros zero = []
zeros (suc n) = 0 ∷ zeros n

length-zeros : (n : ℕ) → length (zeros n) ≡ n
unfolding zeros
length-zeros zero = refl
length-zeros (suc n) = ap suc (length-zeros n)

abbrev silence : ℕ → Fragment
silence n = record { content = zeros n; ranges = []; real_speech_end = pos 0 }

abbrev fragments : List Fragment
fragments = silence 400000 ∷ silence 400000 ∷ silence 0 ∷ []

whole_silence : (n : ℕ) → n / 2 * 2 ≡ n → length (zeros n) / 2 * 2 ≡ length (zeros n)
whole_silence n h = omega (arith, length-zeros n)

fragments-AreWhole : AreWhole fragments
fragments-AreWhole =
    (whole_silence 400000 refl, (whole_silence 400000 refl, (whole_silence 0 refl, tt)))

-- A sample keeps the 16 bits.
abbrev same : ℤ → ℤ
same n = n

sample_for_lang_id-AreApart_example :
    ((total_length fragments < sample_min_length)
      × (sample_for_lang_id same fragments ≡ err too_short))
    ⊎ ((sample_min_length ≤ total_length fragments)
        × ((xs : List (List ℤ)) × (sample_for_lang_id same fragments ≡ ok xs)
            × AreApart same fragments xs))
sample_for_lang_id-AreApart_example = sample_for_lang_id-AreApart same fragments fragments-AreWhole
