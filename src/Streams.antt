-- ===== src/Streams.antt =====
-- Audio between the processes: the chunked streams of internal/api/job_server.go,
-- internal/fetch/fetch_worker.go and internal/asr/asr_worker.go, and the checksum that each chunk
-- carries, of Go's hash/crc32. A byte is a number, and a Go string is its bytes.
pub mod Upload
pub mod Download
pub mod Delivery
pub mod Fetched
pub mod Intact
pub mod Panics
use qarau.Common.{
  ℕ, zero, suc, ◌+◌, ◌-◌, ◌*◌, ◌/◌, ◌%◌, Bool, List, [], ◌∷◌, length, take, drop, ◌==◌, min,
  if◌then◌else◌,
}
use qarau.Common.Int.{ℤ, pos}

-- The exclusive or of the lowest bits of two numbers, as many as the first argument says.
unfoldable pub xor : ℕ → ℕ → ℕ → ℕ
xor zero a b = 0
xor (suc bits) a b = (a + b) % 2 + 2 * xor bits (a / 2) (b / 2)

-- The polynomial of crc32.IEEE, its bits reversed.
abbrev pub polynomial : ℕ
polynomial = 3988292384

unfoldable pub crc_bits : ℕ → ℕ → ℕ
unfolding xor
crc_bits zero crc = crc
crc_bits (suc n) crc = crc_bits n (if crc % 2 == 0 then crc / 2 else xor 32 (crc / 2) polynomial)

unfoldable pub crc_bytes : ℕ → List ℕ → ℕ
unfolding crc_bits
crc_bytes crc [] = crc
crc_bytes crc (b ∷ bs) = crc_bytes (crc_bits 8 (xor 32 crc b)) bs

-- crc32.ChecksumIEEE
unfoldable pub checksum : List ℕ → ℕ
unfolding crc_bytes
checksum bytes = 4294967295 - crc_bytes 4294967295 bytes

-- A chunk of either stream (CompleteFetchChunk and FetchedAudioChunk of proto/qarau/v1).
pub record Chunk : Type 0 where
  pub offset : ℤ
  pub content : List ℕ
  pub crc32 : ℕ

abbrev pub max_audio_chunk : ℕ
max_audio_chunk = 1048576

abbrev pub max_audio_size : ℕ
max_audio_size = 200000000

-- A sender's loop `for offset < length`, which sends `size` bytes at a time and the rest at the
-- end. The first argument is fuel, of which one for each byte is enough.
unfoldable pub chunk_loop : ℕ → ℕ → ℕ → List ℕ → List Chunk
chunk_loop zero size offset rest = []
chunk_loop (suc n) size offset [] = []
chunk_loop (suc n) size offset (b ∷ bs) =
    record {
      offset = pos offset;
      content = take size (b ∷ bs);
      crc32 = checksum (take size (b ∷ bs));
    }
    ∷ chunk_loop n size (offset + length (take size (b ∷ bs))) (drop size (b ∷ bs))

unfoldable pub to_chunks : ℕ → List ℕ → List Chunk
unfolding chunk_loop
to_chunks size bytes = chunk_loop (length bytes) size 0 bytes
