-- ===== src/Upload.antt =====
-- storage/upload.py: the bounded copy of one upload into temporary storage. The upload's stream and
-- the destination are outside: they are the record Copying, over any state S.
pub mod Copied
pub mod Stream
pub mod Liveness
pub mod Tests
use software_hub.Prelude.{
  ℕ, zero, suc, ◌+◌, ◌-◌, Bool, true, false, Option, none, some, List, [], ◌∷◌, ◌++◌, Text, nat_beq,
  ltb, leb, length, take, drop, if◌then◌else◌, String, nat_eq,
}
use software_hub.Errors.{ApplicationError}
use software_hub.Io.{
  Raised, Outcome, returned, raised, Io, ◌>>=◌, ◌>>◌, return, raise, raise_when, call, ask, handle,
  try,
}
use software_hub.Storage.{Bytes}
use software_hub.Storage.Paths.{storage_error, perform}
use software_hub.Storage.Hashing.{Hasher, Streaming, start, update_streaming}

-- The calls on the stream and on the destination's descriptor. `none` and, for a call that gives no
-- value, `false` stand for an `OSError`. `rest` and `written` are no calls: what the stream still
-- holds, and what the destination holds.
pub record Copying (S : Type 0) : Type 0 where
  -- `source.read(chunk_size)`
  pub read : ℕ → S → Option Bytes × S
  -- `os.open` of the destination, which must not exist
  pub create : S → Bool × S
  -- `os.write`, with the number of bytes written
  pub write : Bytes → S → Option ℕ × S
  pub fsync : S → Bool × S
  pub fchmod : S → Bool × S
  -- `os.close` of the descriptor
  pub close : S → Bool × S
  pub rest : S → Bytes
  pub written : S → Bytes

-- `_CopyResult`
pub record CopyResult : Type 0 where
  pub size_bytes : ℕ
  pub sha256 : Text
  pub signature_sample : Bytes

abbrev pub payload_too_large : ApplicationError
payload_too_large = ApplicationError.payload_too_large "The uploaded file is too large."

abbrev pub empty_file : ApplicationError
empty_file = ApplicationError.file_validation_error "Empty files cannot be uploaded."

-- What the loop of `_copy_stream` keeps.
pub record Progress (H : Type 0) : Type 0 where
  pub digest : Streaming H
  pub sample : Bytes

-- `sample.extend(chunk[: sample_size - len(sample)])`, where there is room
unfoldable pub extend_sample : ℕ → Bytes → Bytes → Bytes
extend_sample sample_size sample chunk =
    if ltb (length sample) sample_size
    then sample ++ take (sample_size - length sample) chunk
    else sample

module _ {S H : Type 0} (hasher : Hasher H) (os : Copying S) where
  -- `_write_all`; a round writes a byte at least, so that the length of the view is fuel enough.
  unfoldable pub write_all : ℕ → Bytes → Io S (Unit {0})
  write_all zero view = return tt
  write_all (suc fuel) [] = return tt
  write_all (suc fuel) (b ∷ view) = do
    written ← call (os.write (b ∷ view)) Raised.os_error
    if nat_beq written 0 then raise Raised.os_error else return tt
    write_all fuel (drop written (b ∷ view))

  -- The body of the loop for a chunk that is not empty.
  unfoldable pub copy_chunk : ℕ → ℕ → Progress H → Bytes → Io S (Progress H)
  copy_chunk max_size sample_size p chunk = do
    raise_when (ltb max_size (p.digest.bytes_processed + length chunk)) payload_too_large
    write_all (length chunk) chunk
    return (record {
      digest = update_streaming hasher p.digest chunk;
      sample = extend_sample sample_size p.sample chunk;
    })

  -- What the loop does with what was read: `again` are its next rounds.
  abbrev pub after_read :
      ℕ → ℕ → Progress H → (Progress H → Io S (Progress H)) → Bytes → Io S (Progress H)
  after_read max_size sample_size p again [] = return p
  after_read max_size sample_size p again (b ∷ bytes) =
      copy_chunk max_size sample_size p (b ∷ bytes) >>= again

  -- `while chunk := source.read(chunk_size)`; a round takes a byte at least and none beyond
  -- `max_size`, so that `max_size + 1` rounds are fuel enough whatever the stream holds.
  unfoldable pub copy_chunks : ℕ → ℕ → ℕ → ℕ → Progress H → Io S (Progress H)
  copy_chunks zero max_size chunk_size sample_size p = return p
  copy_chunks (suc fuel) max_size chunk_size sample_size p = do
    chunk ← call (os.read chunk_size) Raised.os_error
    after_read max_size sample_size p (copy_chunks fuel max_size chunk_size sample_size) chunk

  -- The block under `try`, once the descriptor is open.
  unfoldable pub copy_body : ℕ → ℕ → ℕ → Io S CopyResult
  copy_body max_size chunk_size sample_size = do
    p ←
        copy_chunks (max_size + 1) max_size chunk_size sample_size
          (record { digest = start hasher; sample = [] })
    raise_when (nat_beq p.digest.bytes_processed 0) empty_file
    perform os.fsync Raised.os_error
    perform os.fchmod Raised.os_error
    return (record {
      size_bytes = p.digest.bytes_processed;
      sha256 = hasher.hexdigest p.digest.hasher;
      signature_sample = p.sample;
    })

  -- `except OSError`
  abbrev pub not_stored : {A : Type 0} → Raised → Io S A
  not_stored Raised.os_error = raise (storage_error "The temporary upload could not be stored.")
  not_stored Raised.database_error = raise Raised.database_error
  not_stored (Raised.application e) = raise (Raised.application e)

  -- `finally: os.close(descriptor)`: the outcome stays, unless closing raises.
  abbrev pub and_close : {A : Type 0} → Outcome A × S → Outcome A × S
  and_close (returned a, s) = (perform os.close Raised.os_error >> return a) s
  and_close (raised e, s) = (perform os.close Raised.os_error >> raise e) s

  abbrev pub closing : {A : Type 0} → Io S A → Io S A
  closing m s = and_close (m s)

  unfoldable pub copy_stream : ℕ → ℕ → ℕ → Io S CopyResult
  copy_stream max_size chunk_size sample_size = do
    perform os.create (storage_error "The temporary upload could not be stored.")
    closing (try (copy_body max_size chunk_size sample_size) not_stored)
