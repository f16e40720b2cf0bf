-- ===== src/Streams/Panics.antt =====
-- When CompleteFetch panics.
use Prim.Native.String.{String}
use qarau.Common.{
  ◌↔◌, ◌≢◌, ◌≡◌, refl, subst, ◌∙◌, true, inl, inr, Bool-cases, ℕ, arith, List, [], ◌∷◌, ◌++◌,
  length, ◌==◌,
}
use qarau.Common.Int.{pos_part, ◌<ℤ◌, pos, ltb_ℤ}
use qarau.Common.Result.{Result, ok, err, ◌>>=◌, panic, Yields}
use qarau.Streams.{checksum}
use qarau.Store.{Store}
use qarau.Service.{Clock, complete_fetch_job}
use qarau.Streams.Upload.{
  Message, complete_fetch, no_upload, as_internal, is_size, meta, accept_end, receive_upload,
  Upload, chunk, Event, received, broken, accept_chunk, accept_meta, validate_filename, Meta,
}
use qarau.Streams.Intact.{accept_meta-IsAllowed, not_zero, upload_of, IsAllowed}

-- The first message that is not empty is metadata with a negative length, and nothing else in it
-- is refused.
abbrev pub FirstIsNegative : List Event → Type 0
FirstIsNegative [] = ⊥
FirstIsNegative (broken ∷ es) = ⊥
FirstIsNegative (received Message.empty ∷ es) = FirstIsNegative es
FirstIsNegative (received (chunk c) ∷ es) = ⊥
FirstIsNegative (received (meta m) ∷ es) =
    (pos 0 <ℤ m.job_id)
    × (pos 0 <ℤ m.video_id)
    × (validate_filename m.filename ≡ true)
    × (m.length <ℤ pos 0)

-- After allowed metadata nothing panics.
receive_upload-survives :
    (m : Meta) (before : List ℕ) (es : List Event)
    → pos 0 <ℤ m.length
    → receive_upload (upload_of m before) es ≢ err panic
unfolding receive_upload accept_meta accept_chunk accept_end
receive_upload-survives m before [] h = elim (Bool-cases (is_size (length before) m.length)) [
  | inl d ↦ rw (not_zero m.length h, d) (λ e. cc)
  | inr d ↦ rw (not_zero m.length h, d) (λ e. absurd (ground arith))
]
receive_upload-survives m before (broken ∷ es) h = λ e. absurd (ground arith)
receive_upload-survives m before (received Message.empty ∷ es) h =
    receive_upload-survives m before es h
receive_upload-survives m before (received (meta k) ∷ es) h =
    let declared : ltb_ℤ (pos 0) m.length ≡ true = ground arith in
    rw declared (λ e. absurd (ground arith))
receive_upload-survives m before (received (chunk c) ∷ es) h =
    elim (Bool-cases (is_size (length before) c.offset)) [
      | inr d ↦ rw (not_zero m.length h, d) (λ e. absurd (ground arith))
      | inl d ↦ elim (Bool-cases (checksum c.content == c.crc32)) [
        | inr k ↦ rw (not_zero m.length h, d, k) (λ e. absurd (ground arith))
        | inl k ↦
            rw (not_zero m.length h, d, k) (receive_upload-survives m (before ++ c.content) es h)
      ]
    ]

accept_meta-panics :
    (m : Meta)
    → (accept_meta no_upload m ≡ err panic) ↔ (
        (pos 0 <ℤ m.job_id)
        × (pos 0 <ℤ m.video_id)
        × (validate_filename m.filename ≡ true)
        × (m.length <ℤ pos 0))
unfolding accept_meta
accept_meta-panics m = ((λ e. ground arith), λ (job, video, name, negative). rw name (ground arith))

receive_upload-panics :
    (es : List Event) → (receive_upload no_upload es ≡ err panic) ↔ FirstIsNegative es
unfolding receive_upload accept_chunk accept_end
receive_upload-panics [] = ((λ e. absurd (ground arith)), λ n. absurd n)
receive_upload-panics (broken ∷ es) = ((λ e. absurd (ground arith)), λ n. absurd n)
receive_upload-panics (received Message.empty ∷ es) = receive_upload-panics es
receive_upload-panics (received (chunk c) ∷ es) = ((λ e. absurd (ground arith)), λ n. absurd n)
receive_upload-panics (received (meta m) ∷ es) = (
  go (accept_meta no_upload m) refl (accept_meta-IsAllowed m),
  λ n. rw ((accept_meta-panics m).1 n) refl,
)
  where
    go :
        (r : Result Upload)
        → accept_meta no_upload m ≡ r
        → Yields r (λ v. IsAllowed m × (v ≡ upload_of m []))
        → (r >>= λ v. receive_upload v es) ≡ err panic
        → FirstIsNegative (received (meta m) ∷ es)
    go (err x) q y e = (accept_meta-panics m).0 (q ∙ e)
    go (ok v) q (allowed, k) e = absurd (
        receive_upload-survives m [] es allowed.some_audio
          (subst (λ x. receive_upload x es ≡ err panic) k e))

-- CompleteFetch panics exactly when the first message that is not empty is metadata with a positive
-- job and video, a valid file name and a negative length, whatever follows: such a length passes
-- the guards, and `accumulator.Grow` panics on it.
pub complete_fetch-panics :
    (c : Clock) (w : String) (es : List Event) (s : Store)
    → (complete_fetch c w es s ≡ err panic) ↔ FirstIsNegative es
unfolding complete_fetch
complete_fetch-panics c w es s = (
  λ h. (receive_upload-panics es).0 (received_panic (receive_upload no_upload es) h),
  λ n. rw ((receive_upload-panics es).1 n) refl,
)
  where
    handled : (x : Result (Unit {0} × Store)) → as_internal x ≢ err panic
    handled (ok a) e = cc
    handled (err y) e = absurd (ground arith)

    received_panic :
        (r : Result Upload)
        → (r >>= λ u. as_internal (
            complete_fetch_job c w
              (pos_part u.job_id)
              (pos_part u.video_id)
              u.accumulator
              u.filename
              s))
          ≡ err panic
        → r ≡ err panic
    received_panic (ok u) h = absurd (handled _ h)
    received_panic (err y) h = cc
