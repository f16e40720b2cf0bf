-- ===== src/Common/Result.antt =====
-- Calls that can fail: an error ends the chain, as `if err != nil { return err }` does.

pub data Error : Type 0 where
  -- pgx.ErrNoRows, the constraints of a table, and a value out of the range of a column
  no_rows unique_violation foreign_key_violation out_of_range : Error
  unknown_job_type unexpected_state not_owner : Error
  -- a nil pointer is followed, an index is out of range, a negative size: the goroutine panics
  panic : Error
  -- ErrAudioNotMultipleOf16Bits
  odd_length : Error
  -- a worker's own checks
  no_fragments no_content too_big too_short empty_message bad_offset bad_checksum bad_length : Error
  -- the video service's own errors
  corrupted_data unprocessable_video no_such_video no_such_seq no_such_topic : Error
  no_such_transcription search_failed no_topics : Error
  -- gRPC status codes
  failed_precondition not_found internal unavailable invalid_argument : Error

-- A call returns its error or its value, as Go's pairs (value, err) do.
pub data Result {ℓ} (V : Type ℓ) : Type ℓ where
  err : Error → Result V
  ok : V → Result V

infixl 5 ◌>>=◌ ◌>>◌
abbrev pub ◌>>=◌ {ℓ ℓ'} : {V : Type ℓ} {W : Type ℓ'} → Result V → (V → Result W) → Result W
err e >>= next = err e
ok v >>= next = next v

abbrev pub ◌>>◌ {ℓ} : {W : Type ℓ} → Result (Unit {0}) → Result W → Result W
err e >> next = err e
ok u >> next = next

-- What holds of the value that a call returns, if it returns one.
abbrev pub Yields {ℓ} : {A : Type ℓ} → Result A → (A → Type 0) → Type 0
Yields (ok a) P = P a
Yields (err e) P = Unit {0}

pub Yields-bind {ℓ κ} :
    {A : Type ℓ} {B : Type κ} (m : Result A) (f : A → Result B) (P : A → Type 0) (Q : B → Type 0)
    → Yields m P
    → ((a : A) → P a → Yields (f a) Q)
    → Yields (m >>= f) Q
Yields-bind (ok a) f P Q h next = next a h
Yields-bind (err e) f P Q h next = tt
