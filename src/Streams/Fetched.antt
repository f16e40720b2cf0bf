-- ===== src/Streams/Fetched.antt =====
-- The way of a recording from a fetch worker to an asr worker.
use mathlib.Core.List.{append-nil, append_assoc}
use Prim.Native.String.{String}
use qarau.Common.{
  length_laws, ==_self, ℕ, zero, suc, ◌+◌, ◌≤◌, ◌==◌, ◌≡◌, refl, sym, ap, ◌∙◌, subst, arith, true,
  some, List, [], ◌∷◌, ◌++◌, map, length, take, drop, length-append, take-append-drop, Bool-cases,
  inl, inr,
}
use qarau.Common.Int.{ℤ, pos}
use qarau.Common.Result.{Result, ok}
use qarau.Service.Requests.{Leaves}
use qarau.Service.Transactions.{Leaves-bind}
use qarau.Jobs.{JobType, fetch}
use qarau.Streams.Download.{to_meta}
use qarau.Store.{
  exists, create_audio_blob, complete_job, create_asr_job, insert_job, Store, Video, AudioBlob,
}
use qarau.Service.{Clock, complete_fetch_job, check_lease}
use qarau.Transcript.{
  AudioBlobContent, get_audio_blob, find_blob, find_video, micros_to_floor_seconds,
}
use qarau.Streams.{checksum, chunk_loop, to_chunks, max_audio_chunk, max_audio_size}
use qarau.Streams.Download.{
  AudioMeta, Response, audio_meta, audio_chunk, got, send_audio, get_fetched_audio, receive_audio,
  receive_meta, receive_chunk, receive_chunks,
}

receive_chunk_step :
    (d : ℕ) (written piece : List ℕ)
    → length written + length piece ≤ d
    → receive_chunk (pos d) written (
        got (
          audio_chunk
            (record { offset = pos (length written); content = piece; crc32 = checksum piece })))
      ≡ ok (written ++ piece)
unfolding receive_chunk
receive_chunk_step d written piece h =
    rw (==_self (length written), ==_self (checksum piece)) (ground arith)

chunk_loop-receive :
    (n size : ℕ) (rest written : List ℕ) (d : ℕ)
    → 1 ≤ size
    → length rest ≤ n
    → length written + length rest ≡ d
    → receive_chunks
        (pos d)
        written
        (map got (map audio_chunk (chunk_loop n size (length written) rest)))
      ≡ ok (written ++ rest)
unfolding chunk_loop receive_chunks
chunk_loop-receive zero size [] written d s f h = rw (append-nil written) (ground arith)
chunk_loop-receive zero size (b ∷ bs) written d s f h = absurd (omega arith)
chunk_loop-receive (suc n) size [] written d s f h = rw (append-nil written) (ground arith)
chunk_loop-receive (suc n) size (b ∷ bs) written d s f h =
    rw
      (
        receive_chunk_step d written (take size (b ∷ bs)) (grind length_laws),
        sym (length-append written (take size (b ∷ bs))),
      )
      (chunk_loop-receive n size (drop size (b ∷ bs)) (written ++ take size (b ∷ bs)) d s
          (grind length_laws) (grind length_laws)
        ∙ ap ok (
            append_assoc written (take size (b ∷ bs)) (drop size (b ∷ bs))
            ∙ ap (λ q. written ++ q) (take-append-drop size (b ∷ bs))))

receive_meta-ok :
    (m : AudioMeta) (n : ℕ)
    → m.length ≡ pos n
    → 1024 ≤ n
    → n ≤ max_audio_size
    → receive_meta (got (audio_meta m)) ≡ ok m
receive_meta-ok m n e low high = rw e (ground arith)

-- The whole answer of GetFetchedAudio, received.
send_audio-receive :
    (b : AudioBlobContent)
    → 1024 ≤ length b.content
    → length b.content ≤ max_audio_size
    → receive_audio (map got (send_audio b))
      ≡ ok (record { file = b.content; duration_secs = b.duration_secs })
unfolding receive_audio to_chunks
send_audio-receive b low high =
    rw
      (
        receive_meta-ok (to_meta b) (length b.content) refl low high,
        chunk_loop-receive (length b.content) max_audio_chunk b.content [] (length b.content)
            (omega arith) (omega arith) (omega arith),
      )
      refl

find_video-some :
    (video : ℕ) (vs : List Video)
    → exists (λ v. Video.id v == video) vs ≡ true
    → (micros : ℤ) × (find_video video vs ≡ some micros)
unfolding exists find_video
find_video-some video [] h = cc
find_video-some video (v ∷ vs) h = elim (Bool-cases (v.id == video)) [
  | inl e ↦ rw e (v.duration_micros, refl)
  | inr e ↦ rw e (find_video-some video vs (rw (sym h, e)))
]

-- Both tables that a download reads are as they were.
abbrev KeepsAudio : {A : Type 0} → Store → Result (A × Store) → Type 0
KeepsAudio s r = Leaves r (λ t. (t.blobs ≡ s.blobs) × (t.videos ≡ s.videos))

complete_job-KeepsAudio :
    (job : ℕ) (ty : JobType) (w : String) (now : ℕ) (s : Store)
    → KeepsAudio s (complete_job job ty w now s)
unfolding complete_job
complete_job-KeepsAudio job ty w now s = ground arith

create_asr_job-KeepsAudio : (job now : ℕ) (s : Store) → KeepsAudio s (create_asr_job job now s)
unfolding create_asr_job insert_job
create_asr_job-KeepsAudio job now s = ground arith

-- What a completed download leaves: its blob in front of the others, and the videos as they were.
abbrev IsStored : ℕ → List ℕ → List ℕ → Store → Store → Type 0
IsStored video content filename s t =
    (exists (λ v. Video.id v == video) s.videos ≡ true)
    × (t.blobs ≡ record { video_id = video; content = content; filename = filename } ∷ s.blobs)
    × (t.videos ≡ s.videos)

create_audio_blob-IsStored :
    (video : ℕ) (content filename : List ℕ) (s : Store)
    → Leaves (create_audio_blob video content filename s) (IsStored video content filename s)
unfolding create_audio_blob
create_audio_blob-IsStored video content filename s = ground arith

complete_fetch_job-IsStored :
    (c : Clock) (w : String) (job video : ℕ) (content filename : List ℕ) (s : Store)
    → Leaves
        (complete_fetch_job c w job video content filename s)
        (IsStored video content filename s)
unfolding complete_fetch_job
complete_fetch_job-IsStored c w job video content filename s =
    Leaves-bind (create_audio_blob video content filename) _ (IsStored video content filename s) _ s
      (create_audio_blob-IsStored video content filename s)
      λ _ t h.
        Leaves-bind (complete_job job fetch w c.db) _
          (λ u. (u.blobs ≡ t.blobs) × (u.videos ≡ t.videos)) _ t
          (complete_job-KeepsAudio job fetch w c.db t)
          λ _ u k.
            Leaves-bind (create_asr_job job c.db) _
              (λ v. (v.blobs ≡ u.blobs) × (v.videos ≡ u.videos)) _ u
              (create_asr_job-KeepsAudio job c.db u)
              λ _ v l. (h.0, l.0 ∙ k.0 ∙ h.1, l.1 ∙ k.1 ∙ h.2)

find_blob-newest :
    (b : AudioBlob) (bs ts : List AudioBlob) → ts ≡ b ∷ bs → find_blob b.video_id ts ≡ some b
unfolding find_blob
find_blob-newest b bs ts e = rw (e, ==_self b.video_id) refl

-- The blob and the duration that GetAudioBlob finds after a completed download.
get_audio_blob-IsStored :
    (video : ℕ) (content filename : List ℕ) (s t : Store)
    → IsStored video content filename s t
    → (micros : ℤ) × (find_video video s.videos ≡ some micros)
      × (get_audio_blob video t
          ≡ ok (record {
            filename = filename;
            content = content;
            duration_secs = micros_to_floor_seconds micros;
          }))
unfolding get_audio_blob find_blob
get_audio_blob-IsStored video content filename s t (known, stored, kept) =
    let (micros, at) = find_video-some video s.videos known in
    (micros, at, rw (get_audio_blob, find_blob-newest _ s.blobs t.blobs stored, kept, at) refl)

-- What a fetch worker uploads is what an asr worker gets: let the download of a video be completed
-- with a content of at least 1024 bytes and at most max_audio_size. Then for every database with
-- the same blobs and videos in which the asr worker holds the lease of some job, GetFetchedAudio
-- for that video sends messages from which getFetchedAudio writes exactly that content to its
-- file, and reads the duration of the video in seconds, rounded down.
pub receive_audio-get_fetched_audio :
    (c d : Clock) (w v : String) (job video asr_job : ℕ) (content filename : List ℕ) (s t u : Store)
    → complete_fetch_job c w job video content filename s ≡ ok (tt, t)
    → 1024 ≤ length content
    → length content ≤ max_audio_size
    → u.blobs ≡ t.blobs
    → u.videos ≡ t.videos
    → check_lease d asr_job v u ≡ ok true
    → (rs : List Response) × (get_fetched_audio d v asr_job video u ≡ ok rs)
      × (micros : ℤ) × (find_video video s.videos ≡ some micros)
      × (receive_audio (map got rs)
          ≡ ok (record { file = content; duration_secs = micros_to_floor_seconds micros }))
unfolding get_fetched_audio
receive_audio-get_fetched_audio c d w v job video asr_job content filename s t u done low high
      same_blobs same_videos leased =
    let stored : IsStored video content filename s t =
      subst (λ r. Leaves r (IsStored video content filename s)) done
        (complete_fetch_job-IsStored c w job video content filename s) in
    let there : IsStored video content filename s u =
      (stored.0, same_blobs ∙ stored.1, same_videos ∙ stored.2) in
    let (micros, at, blob) = get_audio_blob-IsStored video content filename s u there in
    let b : AudioBlobContent = record {
      filename = filename;
      content = content;
      duration_secs = micros_to_floor_seconds micros;
    } in
    (send_audio b, rw (leased, blob) refl, micros, at, send_audio-receive b low high)
