-- ===== src/Eleven/Pipeline.antt =====
-- From a recording to the words in it, through the transcription service.
use qarau.Common.Int.{pos, ℤ}
use qarau.Eleven.Parts.{partition-AreParts, AreParts}
use qarau.Eleven.{
  target_frames, total_length, concat_words, partition, parallel_request, stitch, transcribe_part,
  transcribe_parts,
}
use qarau.Common.{◌≤◌, sym, ◌%◌, refl, ◌<◌, ℕ, ◌/◌, ◌≡◌, subst, arith, List, [], ◌∷◌, ◌++◌, length}
use qarau.Common.Result.{Result, ok}
use qarau.Words.{Word}
use qarau.Vad.{SegmentRange, Fragment, join_ranges, stitch_content}
use qarau.Vad.Layout.{AllLaid}
use qarau.Vad.Spans.{spans, spans-append}
use qarau.Vad.Coverage.{IsOrdered, segment_audio-Covers, Reports}
use qarau.Vad.Segment.{Segment, segment_audio}
use qarau.Vad.Restore.{restore_word_timestamps}
use qarau.Vad.Chains.{IsChain}
use qarau.Vad.Placing.{InOrder, AllBack, restore_word_timestamps-AllBack}
use qarau.Vad.Faithful.{segment_audio-laid}
use qarau.Eleven.Chains.{Covers-AreApart, join_ranges-IsChain, AreApart, AreApart-append}

-- Fragments that are laid from the recording, with ranges in order and apart.
pub record IsCutFrom (pcm : List ℕ) (fs : List Fragment) : Type 0 where
  pub laid : AllLaid pcm fs
  pub apart : AreApart 0 (spans fs)

AllLaid-split :
    (pcm : List ℕ) (fs gs : List Fragment)
    → AllLaid pcm (fs ++ gs)
    → AllLaid pcm fs × AllLaid pcm gs
AllLaid-split pcm [] gs h = (tt, h)
AllLaid-split pcm (f ∷ fs) gs (l, h) =
    let (front, back) = AllLaid-split pcm fs gs h in ((l, front), back)

IsCutFrom-split :
    (pcm : List ℕ) (fs gs : List Fragment)
    → IsCutFrom pcm (fs ++ gs)
    → IsCutFrom pcm fs × IsCutFrom pcm gs
IsCutFrom-split pcm fs gs h =
    let (front, back) = AllLaid-split pcm fs gs h.laid in
    let (before, behind) =
      AreApart-append 0 (spans fs) (spans gs) (subst (AreApart 0) (spans-append fs gs) h.apart) in
    (record { laid = front; apart = before }, record { laid = back; apart = behind })

-- The words of the parts: for each part, those that the service found in its audio, put back.
abbrev pub AllRestored :
    (List ℕ → Result (List Word)) → List (List Fragment) → List (List Word) → Type 0
AllRestored request [] [] = Unit {0}
AllRestored request (p ∷ ps) (vs ∷ rest) =
    (ws : List Word) × (request (stitch_content p) ≡ ok ws)
    × AllBack (join_ranges p) ws vs
    × AllRestored request ps rest
AllRestored request _ _ = ⊥

module _ (request : List ℕ → Result (List Word)) where
  -- What is relied on of the service: it answers, with words that start within the audio that was
  -- sent, in order of time.
  abbrev pub AnswersInOrder : Type 0
  AnswersInOrder =
      (audio : List ℕ)
      → (ws : List Word) × (request audio ≡ ok ws) × InOrder 0 ws (length audio / 2)

  restored :
      (rs : List SegmentRange) (end : ℕ) (ws : List Word)
      → IsChain 0 rs end
      → InOrder 0 ws end
      → AllBack rs ws (restore_word_timestamps rs ws)
  unfolding restore_word_timestamps
  restored [] end [] chain order = tt
  restored [] end (w ∷ ws) chain (lo, lt, order) = absurd (omega arith)
  restored (r ∷ rs) end ws chain order = restore_word_timestamps-AllBack r rs end ws chain order

  transcribe_part-AllBack :
      (pcm : List ℕ) (f : Fragment) (fs : List Fragment)
      → length pcm / 2 < 4294967296
      → AnswersInOrder
      → IsCutFrom pcm (f ∷ fs)
      → (vs : List Word) × (transcribe_part request (f ∷ fs) ≡ ok vs)
        × (ws : List Word) × (request (stitch_content (f ∷ fs)) ≡ ok ws)
        × AllBack (join_ranges (f ∷ fs)) ws vs
  unfolding transcribe_part stitch
  transcribe_part-AllBack pcm f fs small ordered cut =
      let (ws, asked, order) = ordered (stitch_content (f ∷ fs)) in
      (
        restore_word_timestamps (join_ranges (f ∷ fs)) ws,
        rw asked refl,
        ws,
        asked,
        restored (join_ranges (f ∷ fs)) (length (stitch_content (f ∷ fs)) / 2) ws
            (join_ranges-IsChain pcm (f ∷ fs) small cut.laid cut.apart) order,
      )

  transcribe_parts-AllRestored :
      (pcm : List ℕ) (target : ℕ) (fragments : List Fragment) (parts : List (List Fragment))
      → length pcm / 2 < 4294967296
      → AnswersInOrder
      → IsCutFrom pcm fragments
      → AreParts target fragments parts
      → (results : List (List Word)) × (transcribe_parts request parts ≡ ok results)
        × AllRestored request parts results
  unfolding transcribe_parts
  transcribe_parts-AllRestored pcm target fragments [] small ordered cut are = ([], refl, tt)
  transcribe_parts-AllRestored pcm target fragments (p ∷ ps) small ordered cut
        (f, fs, rest, e, whole, need, full, more) =
      let (front, back) = IsCutFrom-split pcm p rest (subst (IsCutFrom pcm) whole cut) in
      let (vs, part, ws, asked, placed) =
        transcribe_part-AllBack pcm f fs small ordered (subst (IsCutFrom pcm) e front) in
      let (others, found, all) =
        transcribe_parts-AllRestored pcm target rest ps small ordered back more in
      (
        vs ∷ others,
        rw (e, part, found) refl,
        (ws, rw e asked, subst (λ q. AllBack (join_ranges q) ws vs) (sym e) placed, all),
      )

-- The fragments of an ordered detection are cut from the recording.
segment_audio-IsCutFrom :
    (S : Type 0) (seconds_to_millis : S → ℤ) (pcm : List ℕ) (segments : List (Segment S))
    (ts : List (ℕ × ℕ)) (pad : ℕ) (gap_max fragment_max : ℤ)
    → length pcm % 2 ≡ 0
    → Reports S seconds_to_millis segments ts
    → IsOrdered (record { pcm = pcm; pad_millis = pos pad }) 0 ts
    → (fs : List Fragment) × (segment_audio S seconds_to_millis pcm segments
          (pos pad)
          gap_max
          fragment_max
        ≡ ok fs)
      × IsCutFrom pcm fs
segment_audio-IsCutFrom S seconds_to_millis pcm segments ts pad gap_max fragment_max even h o =
    let (fs, made, covers) =
      segment_audio-Covers S seconds_to_millis pcm segments ts pad gap_max fragment_max even h o in
    (
      fs,
      made,
      record {
        laid =
            segment_audio-laid S seconds_to_millis pcm segments (pos pad) gap_max fragment_max fs
              made;
        apart =
            Covers-AreApart (record { pcm = pcm; pad_millis = pos pad }) 0 ts (spans fs) 0 o covers;
      },
    )

-- The way from a recording to its words. Let the recording have whole frames, fewer than 2³², let
-- the detector report segments in time order, as for segment_audio-Covers, and let the fragments
-- that are cut for them hold any audio; and let the service answer, with words that start within
-- the audio sent, in order of time. Then parallelRequest returns words: those of the parts, one
-- part behind the other; and for each part, every word that the service found in its stitched
-- audio is put back, in order, to its place in the recording.
pub parallel_request-AllRestored :
    (S : Type 0) (seconds_to_millis : S → ℤ) (request : List ℕ → Result (List Word)) (pcm : List ℕ)
    (segments : List (Segment S)) (ts : List (ℕ × ℕ)) (pad : ℕ) (gap_max fragment_max : ℤ)
    (fs : List Fragment)
    → length pcm % 2 ≡ 0
    → length pcm / 2 < 4294967296
    → Reports S seconds_to_millis segments ts
    → IsOrdered (record { pcm = pcm; pad_millis = pos pad }) 0 ts
    → segment_audio S seconds_to_millis pcm segments (pos pad) gap_max fragment_max ≡ ok fs
    → 1 ≤ total_length fs
    → AnswersInOrder request
    → (words : List Word) × (parallel_request request fs ≡ ok words)
      × (parts : List (List Fragment)) × (results : List (List Word)) × (partition fs ≡ ok parts)
      × (words ≡ concat_words results)
      × AllRestored request parts results
unfolding parallel_request
parallel_request-AllRestored S seconds_to_millis request pcm segments ts pad gap_max fragment_max fs
      even small h o made some_audio ordered =
    let (gs, made', cut) =
      segment_audio-IsCutFrom S seconds_to_millis pcm segments ts pad gap_max fragment_max even h
        o in
    let same : gs ≡ fs = cc (made', made) in
    let (parts, split, are, few) = partition-AreParts fs some_audio in
    let (results, found, all) =
      transcribe_parts-AllRestored request pcm (target_frames (total_length fs)) fs parts small
        ordered (subst (IsCutFrom pcm) same cut) are in
    (concat_words results, rw (split, found) refl, parts, results, split, refl, all)
