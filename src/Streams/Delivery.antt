-- ===== src/Streams/Delivery.antt =====
-- A receiver of either stream gets the bytes that the sender had.
use qarau.Service.{complete_fetch_job}
use qarau.Store.{Store}
use Prim.Native.String.{String}
use qarau.Service.{Clock}
use mathlib.Core.List.{append-nil, append_assoc}
use qarau.Common.{
  length_laws, ==_self, subst, ℕ, zero, suc, ◌≤◌, ◌≡◌, refl, sym, ap, ◌∙◌, arith, true, List, [],
  ◌∷◌, ◌++◌, map, length, take, drop, length-append, take-append-drop,
}
use qarau.Common.Int.{pos}
use qarau.Common.Result.{ok}
use qarau.Streams.{max_audio_chunk, max_audio_size, to_chunks, checksum, chunk_loop}
use qarau.Streams.Upload.{
  as_internal, Message, stream_meta, no_upload, accept, complete_fetch, accept_meta, stream_audio,
  validate_filename, Upload, chunk, received, receive_upload, accept_chunk, accept_end,
}

receive_chunk_step :
    (u : Upload) (d size : ℕ) (b : ℕ) (bs : List ℕ)
    → u.declared_len ≡ pos (suc d)
    → let piece = take size (b ∷ bs) in
      accept_chunk u
        (record { offset = pos (length u.accumulator); content = piece; crc32 = checksum piece })
      ≡ ok (record u { accumulator = u.accumulator ++ piece })
unfolding accept_chunk
receive_chunk_step u d size b bs h =
    rw (h, ==_self (length u.accumulator), ==_self (checksum (take size (b ∷ bs)))) (ground arith)

chunk_loop-receive :
    (n size : ℕ) (rest : List ℕ) (u : Upload) (d : ℕ)
    → 1 ≤ size
    → length rest ≤ n
    → u.declared_len ≡ pos (suc d)
    → receive_upload u (map received (map chunk (chunk_loop n size (length u.accumulator) rest)))
      ≡ accept_end (record u { accumulator = u.accumulator ++ rest })
unfolding chunk_loop receive_upload
chunk_loop-receive zero size [] u d s f h = rw (append-nil u.accumulator)
chunk_loop-receive zero size (b ∷ bs) u d s f h = absurd (omega arith)
chunk_loop-receive (suc n) size [] u d s f h = rw (append-nil u.accumulator)
chunk_loop-receive (suc n) size (b ∷ bs) u d s f h =
    rw (receive_chunk_step u d size b bs h, sym (length-append u.accumulator (take size (b ∷ bs))))
      (chunk_loop-receive n size (drop size (b ∷ bs))
          (record u { accumulator = u.accumulator ++ take size (b ∷ bs) }) d s (grind length_laws) h
        ∙ ap (λ q. accept_end (record u { accumulator = q }))
            (append_assoc u.accumulator (take size (b ∷ bs)) (drop size (b ∷ bs))
              ∙ ap (λ q. u.accumulator ++ q) (take-append-drop size (b ∷ bs))))

to_chunks-receive :
    (bytes : List ℕ) (u : Upload) (d : ℕ)
    → u.declared_len ≡ pos (suc d)
    → u.accumulator ≡ []
    → receive_upload u (map received (map chunk (to_chunks max_audio_chunk bytes)))
      ≡ accept_end (record u { accumulator = bytes })
unfolding to_chunks
to_chunks-receive bytes u d h e =
    subst
      (λ a.
        receive_upload u
          (map received (map chunk (chunk_loop (length bytes) max_audio_chunk (length a) bytes)))
        ≡ accept_end (record u { accumulator = a ++ bytes }))
      e (chunk_loop-receive (length bytes) max_audio_chunk bytes u d (omega arith) (omega arith) h)

abbrev pub whole_upload : ℕ → ℕ → List ℕ → List ℕ → Upload
whole_upload job video filename content = record {
  job_id = pos job;
  video_id = pos video;
  filename = filename;
  declared_len = pos (length content);
  accumulator = content;
}

accept-stream_meta :
    (job video : ℕ) (filename content : List ℕ)
    → 1 ≤ job
    → 1 ≤ video
    → validate_filename filename ≡ true
    → 1 ≤ length content
    → length content ≤ max_audio_size
    → accept no_upload (stream_meta job video filename content)
      ≡ ok (record (whole_upload job video filename content) { accumulator = [] })
unfolding accept_meta
accept-stream_meta job video filename content j v f l m = rw f (ground arith)

accept-whole_upload :
    (job video : ℕ) (filename content : List ℕ)
    → 1 ≤ length content
    → accept_end (whole_upload job video filename content)
      ≡ ok (whole_upload job video filename content)
unfolding accept_end
accept-whole_upload job video filename content l = rw (==_self (length content)) (ground arith)

receive_upload-stream_meta :
    (job video : ℕ) (filename content : List ℕ)
    → 1 ≤ job
    → 1 ≤ video
    → validate_filename filename ≡ true
    → 1 ≤ length content
    → length content ≤ max_audio_size
    → receive_upload no_upload (
        map received
          (stream_meta job video filename content ∷ map chunk (to_chunks max_audio_chunk content)))
      ≡ ok (whole_upload job video filename content)
unfolding receive_upload
receive_upload-stream_meta job video filename [] j v f l m = absurd (omega arith)
receive_upload-stream_meta job video filename (b ∷ bs) j v f l m =
    rw (accept-stream_meta job video filename (b ∷ bs) j v f l m) (
      to_chunks-receive (b ∷ bs)
        (record (whole_upload job video filename (b ∷ bs)) { accumulator = [] }) (length bs) refl
        refl
      ∙ accept-whole_upload job video filename (b ∷ bs) l)

-- What a fetch worker streams arrives whole: for a job, a video and a file name that the server
-- allows, and a file of at least one byte and at most max_audio_size, streamAudio sends messages
-- such that CompleteFetch, on receiving them, does exactly what CompleteFetchJob does with that
-- job, video, content and file name, its errors reported as internal.
pub complete_fetch-stream_audio :
    (c : Clock) (w : String) (s : Store) (job video : ℕ) (filename content : List ℕ)
    → 1 ≤ job
    → 1 ≤ video
    → validate_filename filename ≡ true
    → 1 ≤ length content
    → length content ≤ max_audio_size
    → (ms : List Message) × (stream_audio job video filename content ≡ ok ms)
      × (complete_fetch c w (map received ms) s
          ≡ as_internal (complete_fetch_job c w job video content filename s))
unfolding stream_audio complete_fetch
complete_fetch-stream_audio c w s job video filename content j v f l m = (
  stream_meta job video filename content ∷ map chunk (to_chunks max_audio_chunk content),
  ground arith,
  rw (receive_upload-stream_meta job video filename content j v f l m) refl,
)
