-- ===== src/Words.antt =====
-- The words of a transcription: the protobuf message Word (proto/qarau/v1/word.proto), whose
-- numbers are uint32.
use Prim.Native.String.{String}
use qarau.Common.{ℕ}

pub record Word : Type 0 where
  pub word : String
  pub start_ms : ℕ
  pub end_ms : ℕ
  pub confidence : ℕ
  pub speaker : ℕ
