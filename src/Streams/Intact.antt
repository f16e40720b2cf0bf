-- ===== src/Streams/Intact.antt =====
-- What CompleteFetch accepts is whole and intact, whatever messages arrive.
use mathlib.Core.List.{append-nil, append_assoc}
use qarau.Common.{
  length, refl, sym, ap, subst, ◌∙◌, true, false, inl, inr, Bool-cases, ℕ, ◌≡◌, arith, List, [],
  ◌∷◌, ◌++◌, ◌+◌, length-append, ◌==◌,
}
use qarau.Common.Int.{pos_part, ℤ, ◌<ℤ◌, ◌≤ℤ◌, pos, negsuc, ltb_ℤ}
use qarau.Common.Result.{Result, ok, err, ◌>>=◌, Yields-bind, Yields}
use qarau.Streams.{Chunk, checksum, max_audio_size}
use Prim.Native.String.{String}
use qarau.Store.{Store}
use qarau.Service.{Clock, complete_fetch_job}
use qarau.Streams.Upload.{
  Message, complete_fetch, no_upload, as_internal, is_size, is_zero, meta, accept_end,
  receive_upload, Upload, chunk, Event, received, broken, accept_chunk, accept_meta,
  validate_filename, Meta,
}

-- The contents of the chunks that arrived, in order.
abbrev pub contents : List Event → List ℕ
contents [] = []
contents (received (chunk c) ∷ es) = c.content ++ contents es
contents (_ ∷ es) = contents es

-- After the first `n` bytes: no message was lost, there is no metadata, and each chunk stands at
-- the place that its offset names and has the checksum of its content.
abbrev pub AreChunks : ℕ → List Event → Type 0
AreChunks n [] = Unit {0}
AreChunks n (broken ∷ es) = ⊥
AreChunks n (received Message.empty ∷ es) = AreChunks n es
AreChunks n (received (meta k) ∷ es) = ⊥
AreChunks n (received (chunk c) ∷ es) =
    (c.offset ≡ pos n) × (checksum c.content ≡ c.crc32) × AreChunks (n + length c.content) es

-- The metadata `m`, once and before any chunk, and then the chunks.
abbrev pub IsUpload : Meta → List Event → Type 0
IsUpload m [] = ⊥
IsUpload m (broken ∷ es) = ⊥
IsUpload m (received Message.empty ∷ es) = IsUpload m es
IsUpload m (received (meta k) ∷ es) = (k ≡ m) × AreChunks 0 es
IsUpload m (received (chunk c) ∷ es) = ⊥

-- Metadata that the server allows.
pub record IsAllowed (m : Meta) : Type 0 where
  pub job : pos 0 <ℤ m.job_id
  pub video : pos 0 <ℤ m.video_id
  pub name : validate_filename m.filename ≡ true
  pub some_audio : pos 0 <ℤ m.length
  pub fits : m.length ≤ℤ pos max_audio_size

-- The variables of CompleteFetch after the metadata `m` and these bytes.
abbrev pub upload_of : Meta → List ℕ → Upload
upload_of m bytes = record {
  job_id = m.job_id;
  video_id = m.video_id;
  filename = m.filename;
  declared_len = m.length;
  accumulator = bytes;
}

pub accept_meta-IsAllowed :
    (m : Meta) → Yields (accept_meta no_upload m) (λ v. IsAllowed m × (v ≡ upload_of m []))
unfolding accept_meta
accept_meta-IsAllowed m = ground arith

is_size-eq : (n : ℕ) (z : ℤ) → is_size n z ≡ true → z ≡ pos n
is_size-eq n (pos m) h = ground arith
is_size-eq n (negsuc m) h = absurd (ground arith)

pub not_zero : (z : ℤ) → pos 0 <ℤ z → is_zero z ≡ false
not_zero (pos n) h = ground arith
not_zero (negsuc n) h = absurd (omega arith)

-- What the chunks after the bytes `before` make of the upload.
record Follows (m : Meta) (before : List ℕ) (es : List Event) (v : Upload) : Type 0 where
  bytes : v ≡ upload_of m (before ++ contents es)
  size : m.length ≡ pos (length (before ++ contents es))
  intact : AreChunks (length before) es

accept_end-Follows :
    (m : Meta) (before : List ℕ)
    → pos 0 <ℤ m.length
    → Yields (accept_end (upload_of m before)) (Follows m before [])
unfolding accept_end
accept_end-Follows m before h = elim (Bool-cases (is_size (length before) m.length)) [
  | inr d ↦ rw (not_zero m.length h, d) tt
  | inl d ↦
      rw (not_zero m.length h, d)
        (record {
          bytes = ap (upload_of m) (sym (append-nil before));
          size =
              is_size-eq (length before) m.length d
              ∙ ap (λ a. pos (length a)) (sym (append-nil before));
          intact = tt;
        })
]

Follows-chunk :
    (m : Meta) (before : List ℕ) (c : Chunk) (es : List Event) (v : Upload)
    → c.offset ≡ pos (length before)
    → checksum c.content ≡ c.crc32
    → Follows m (before ++ c.content) es v
    → Follows m before (received (chunk c) ∷ es) v
Follows-chunk m before c es v at sum f =
    let joined = append_assoc before c.content (contents es) in
    record {
      bytes = f.bytes ∙ ap (upload_of m) joined;
      size = f.size ∙ ap (λ a. pos (length a)) joined;
      intact = (at, sum, subst (λ n. AreChunks n es) (length-append before c.content) f.intact);
    }

pub Yields-map :
    {A : Type 0} (r : Result A) (P Q : A → Type 0) → ((a : A) → P a → Q a) → Yields r P → Yields r Q
Yields-map (ok a) P Q f h = f a h
Yields-map (err e) P Q f h = tt

receive_upload-Follows :
    (m : Meta) (before : List ℕ) (es : List Event)
    → pos 0 <ℤ m.length
    → Yields (receive_upload (upload_of m before) es) (Follows m before es)
unfolding receive_upload accept_meta accept_chunk
receive_upload-Follows m before [] h = accept_end-Follows m before h
receive_upload-Follows m before (broken ∷ es) h = tt
receive_upload-Follows m before (received Message.empty ∷ es) h =
    Yields-map (receive_upload (upload_of m before) es) (Follows m before es) _
      (λ v f. record { bytes = f.bytes; size = f.size; intact = f.intact })
      (receive_upload-Follows m before es h)
receive_upload-Follows m before (received (meta k) ∷ es) h =
    let declared : ltb_ℤ (pos 0) m.length ≡ true = ground arith in rw declared tt
receive_upload-Follows m before (received (chunk c) ∷ es) h =
    elim (Bool-cases (is_size (length before) c.offset)) [
      | inr d ↦ rw (not_zero m.length h, d) tt
      | inl d ↦ elim (Bool-cases (checksum c.content == c.crc32)) [
        | inr e ↦ rw (not_zero m.length h, d, e) tt
        | inl e ↦
            rw (not_zero m.length h, d, e)
              (Yields-map (receive_upload (upload_of m (before ++ c.content)) es)
                (Follows m (before ++ c.content) es) _
                (λ v f.
                  Follows-chunk m before c es v (is_size-eq (length before) c.offset d)
                    (ground arith) f)
                (receive_upload-Follows m (before ++ c.content) es h))
      ]
    ]

-- The messages are an upload under allowed metadata, as long as it declares, and make up `v`.
abbrev IsWhole : List Event → Upload → Type 0
IsWhole es v =
    (m : Meta) × IsAllowed m
    × IsUpload m es
    × (m.length ≡ pos (length (contents es)))
    × (v ≡ upload_of m (contents es))

receive_upload-IsWhole : (es : List Event) → Yields (receive_upload no_upload es) (IsWhole es)
unfolding receive_upload accept_end accept_chunk
receive_upload-IsWhole [] = tt
receive_upload-IsWhole (broken ∷ es) = tt
receive_upload-IsWhole (received Message.empty ∷ es) = receive_upload-IsWhole es
receive_upload-IsWhole (received (chunk c) ∷ es) = tt
receive_upload-IsWhole (received (meta m) ∷ es) =
    Yields-bind (accept_meta no_upload m) (λ v. receive_upload v es) _ _ (accept_meta-IsAllowed m)
      (λ v (allowed, e).
        subst (λ x. Yields (receive_upload x es) (IsWhole (received (meta m) ∷ es))) (sym e)
          (Yields-map (receive_upload (upload_of m []) es) (Follows m [] es) _
            (λ w f. (m, allowed, (refl, f.intact), f.size, f.bytes))
            (receive_upload-Follows m [] es allowed.some_audio)))

-- Whatever messages arrive, and wherever the stream breaks: if CompleteFetch succeeds, then no
-- message was lost; one metadata message came, before any chunk, and it was allowed (a positive
-- job, video and length, the length at most max_audio_size, and a valid file name); each chunk
-- stood at its offset and had the checksum of its content; the contents of the chunks in order are
-- as long as that message declared; and the database changed just as CompleteFetchJob changes it
-- for them and for the job, the video and the file name of that message.
pub complete_fetch-IsWhole :
    (c : Clock) (w : String) (es : List Event) (s t : Store)
    → complete_fetch c w es s ≡ ok (tt, t)
    → (m : Meta) × IsAllowed m
      × IsUpload m es
      × (m.length ≡ pos (length (contents es)))
      × (complete_fetch_job c w (pos_part m.job_id) (pos_part m.video_id) (contents es) m.filename s
          ≡ ok (tt, t))
unfolding complete_fetch
complete_fetch-IsWhole c w es s t h = go (receive_upload no_upload es) (receive_upload-IsWhole es) h
  where
    serve_upload : Upload → Result (Unit {0} × Store)
    serve_upload u =
        complete_fetch_job c w (pos_part u.job_id) (pos_part u.video_id) u.accumulator u.filename s

    served : (r : Result (Unit {0} × Store)) → as_internal r ≡ ok (tt, t) → r ≡ ok (tt, t)
    served (ok a) e = e
    served (err e') e = cc

    go :
        (r : Result Upload)
        → Yields r (IsWhole es)
        → (r >>= λ u. as_internal (serve_upload u)) ≡ ok (tt, t)
        → (m : Meta) × IsAllowed m
          × IsUpload m es
          × (m.length ≡ pos (length (contents es)))
          × (complete_fetch_job c w
                (pos_part m.job_id)
                (pos_part m.video_id)
                (contents es)
                m.filename
                s
              ≡ ok (tt, t))
    go (ok u) (m, allowed, upload, size, e) h = (
      m,
      allowed,
      upload,
      size,
      subst (λ v. serve_upload v ≡ ok (tt, t)) e (served (serve_upload u) h),
    )
    go (err e') whole h = cc
