-- ===== src/Storage/Hashing.antt =====
-- storage/hashing.py: SHA-256 of a stream, chunk by chunk. The hash object of `hashlib` is the
-- record Hasher.
use software_hub.Prelude.{
  ℕ, zero, suc, ◌+◌, ◌≤◌, [], ◌∷◌, ◌++◌, Text, length, take, drop, ◌≡◌, refl, ◌∙◌, sym, ap, arith,
  length-append,
}
use software_hub.Io.{Raised, Io, ◌>>=◌, return, call}
use software_hub.Storage.{FilePath, Bytes, Os}

pub record Hasher (H : Type 0) : Type 0 where
  pub empty : H
  pub update : H → Bytes → H
  pub hexdigest : H → Text

-- The documented rule of `update`: two calls are one with the data joined.
pub record IsIncremental {H : Type 0} (hasher : Hasher H) : Type 0 where
  pub update-nil : (h : H) → hasher.update h [] ≡ h
  pub update-append :
      (h : H) (a b : Bytes) → hasher.update (hasher.update h a) b ≡ hasher.update h (a ++ b)

-- `StreamingSHA256`
pub record Streaming (H : Type 0) : Type 0 where
  pub hasher : H
  pub bytes_processed : ℕ

module _ {H : Type 0} (hasher : Hasher H) where
  abbrev pub start : Streaming H
  start = record { hasher = hasher.empty; bytes_processed = 0 }

  unfoldable pub update_streaming : Streaming H → Bytes → Streaming H
  update_streaming s [] = s
  update_streaming s (b ∷ chunk) = record {
    hasher = hasher.update s.hasher (b ∷ chunk);
    bytes_processed = s.bytes_processed + length (b ∷ chunk);
  }

  -- `while chunk := stream.read(chunk_size)`, on what is left of the stream.
  unfoldable pub consume : ℕ → ℕ → Bytes → Streaming H → Streaming H
  consume zero chunk_size rest s = s
  consume (suc fuel) chunk_size rest s = elim (take chunk_size rest) [
    | [] ↦ s
    | b ∷ chunk ↦ consume fuel chunk_size (drop chunk_size rest) (update_streaming s (b ∷ chunk))
  ]

  -- `sha256_stream` for a positive chunk size; a round takes a byte at least, so that the length of
  -- the stream is fuel enough.
  unfoldable pub sha256_stream : ℕ → Bytes → Text × ℕ
  sha256_stream chunk_size stream =
      let s = consume (length stream) chunk_size stream start in
      (hasher.hexdigest s.hasher, s.bytes_processed)

  unfoldable pub sha256_file : {S : Type 0} → Os S → FilePath → Io S (Text × ℕ)
  sha256_file os path = do
    stream ← call (os.read_bytes path) Raised.os_error
    return (sha256_stream 1048576 stream)

zero_add : (n : ℕ) → 0 + n ≡ n
zero_add n = omega arith

pub take-drop : (n : ℕ) (xs : Bytes) → take n xs ++ drop n xs ≡ xs
take-drop zero xs = refl
take-drop (suc n) [] = refl
take-drop (suc n) (x ∷ xs) = ap (λ (r : Bytes). x ∷ r) (take-drop n xs)

module _ {H : Type 0} (hasher : Hasher H) (incremental : IsIncremental hasher) where
  nothing_left :
      (s : Streaming H)
      → s ≡ record { hasher = hasher.update s.hasher []; bytes_processed = s.bytes_processed + 0 }
  nothing_left s =
      let same : s.bytes_processed ≡ s.bytes_processed + 0 = omega arith in
      λ i. record { hasher = sym (incremental.update-nil s.hasher) i; bytes_processed = same i }

  consume-eq-update :
      (fuel n : ℕ) (rest : Bytes) (s : Streaming H)
      → length rest ≤ fuel
      → consume hasher fuel (suc n) rest s ≡ record {
        hasher = hasher.update s.hasher rest;
        bytes_processed = s.bytes_processed + length rest;
      }
  unfolding consume update_streaming
  consume-eq-update zero n [] s h = nothing_left s
  consume-eq-update zero n (b ∷ rest) s h = absurd (omega (arith, h))
  consume-eq-update (suc fuel) n [] s h = nothing_left s
  consume-eq-update (suc fuel) n (b ∷ rest) s h =
      let lengths =
        sym (length-append (take n rest) (drop n rest)) ∙ ap length (take-drop n rest) in
      let used : length (drop n rest) ≤ fuel = omega (arith, lengths, h) in
      let count : s.bytes_processed + suc (length (take n rest)) + length (drop n rest)
          ≡ s.bytes_processed + suc (length rest) =
        omega (arith, lengths) in
      consume-eq-update fuel n (drop n rest) _ used ∙ (λ i. record {
        hasher =
            (incremental.update-append s.hasher (b ∷ take n rest) (drop n rest)
                ∙ ap (λ (d : Bytes). hasher.update s.hasher (b ∷ d)) (take-drop n rest))
              i;
        bytes_processed = count i;
      })

  -- A stream is hashed whole, whatever the chunk size, if it is positive: the digest is that of one
  -- update with all its bytes, and the count is their number.
  pub sha256_stream_lem :
      (chunk_size : ℕ) (stream : Bytes)
      → 1 ≤ chunk_size
      → sha256_stream hasher chunk_size stream
        ≡ (hasher.hexdigest (hasher.update hasher.empty stream), length stream)
  unfolding sha256_stream
  sha256_stream_lem zero stream h = absurd (omega (arith, h))
  sha256_stream_lem (suc n) stream h =
      ap (λ (s : Streaming H). (hasher.hexdigest s.hasher, s.bytes_processed))
        (consume-eq-update (length stream) n stream (start hasher) (omega arith))
      ∙ (λ i. (hasher.hexdigest (hasher.update hasher.empty stream), zero_add (length stream) i))
