-- ===== src/Upload/Stream.antt =====
-- storage/upload.py, _copy_stream: the loop ends within its bound, and what is returned is the whole
-- stream.
use software_hub.Prelude.{
  ◌⊎◌, ℕ, zero, suc, ◌+◌, ◌≤◌, ◌<◌, true, false, some, [], ◌∷◌, ◌++◌, nat_beq, length, take, ◌≡◌,
  inl, inr, refl, sym, ap, ◌∙◌, subst, arith, length-append, nat_eq,
}
use software_hub.Io.{Raised, Outcome}
use software_hub.Io.Rules.{
  Ends, returns, raises, Ends-continue, Ends-handle, Ends-weaken, Ends-raise_when, Ends-call,
}
use software_hub.Storage.{Bytes}
use software_hub.Storage.Paths.{storage_error}
use software_hub.Storage.Moves.{Ends-perform}
use software_hub.Storage.Hashing.{Hasher, IsIncremental, start}
use software_hub.Upload.{
  Copying, CopyResult, Progress, payload_too_large, empty_file, copy_chunks, after_read, copy_body,
  not_stored, and_close, copy_stream,
}
use software_hub.Upload.Copied.{IsFaithful, IsCopied, IsStopped, chunk_step, append_nil}

module _ {S H : Type 0} (hasher : Hasher H) (os : Copying S) (incremental : IsIncremental hasher)
    (faithful : IsFaithful os) (max_size chunk_size sample_size : ℕ) (positive : 1 ≤ chunk_size)
    (all : Bytes) where
  abbrev Copied : Bytes → Progress H → S → Type 0
  Copied seen p s = IsCopied hasher os incremental faithful max_size sample_size all seen p s

  abbrev Stopped : Raised → Type 0
  Stopped e = IsStopped hasher os incremental faithful max_size all e

  grown :
      (fuel : ℕ) (seen : Bytes) (b : ℕ) (bytes : Bytes)
      → max_size < suc fuel + length seen
      → max_size < fuel + length (seen ++ b ∷ bytes)
  grown fuel seen b bytes h = omega (arith, h, length-append seen (b ∷ bytes))

  -- With fuel for one byte more than may be kept, the loop ends at the end of the stream, or raises.
  copy_chunks-Ends :
      (fuel : ℕ) (seen : Bytes) (p : Progress H) (s : S)
      → Copied seen p s
      → max_size < fuel + length seen
      → Ends
          (λ q t. Copied all q t)
          (λ e t. Stopped e)
          (copy_chunks hasher os fuel max_size chunk_size sample_size p s)
  unfolding copy_chunks
  copy_chunks-Ends zero seen p s c h = absurd (omega (arith, h, c.bounded))
  copy_chunks-Ends (suc fuel) seen p s c h =
      Ends-continue
        {P' = λ chunk t. ((os.read chunk_size s).0 ≡ some chunk) × (t ≡ (os.read chunk_size s).1)}
        (Ends-call _ _ s (λ chunk got. (got, refl)) (λ _. inl refl))
        (λ chunk t q. go chunk t q.0 q.1 (copy_chunks-Ends fuel))
    where
      go :
          (chunk : Bytes) (t : S)
          → (os.read chunk_size s).0 ≡ some chunk
          → t ≡ (os.read chunk_size s).1
          → ((seen' : Bytes) (q : Progress H) (t1 : S)
              → Copied seen' q t1
              → max_size < fuel + length seen'
              → Ends
                  (λ q' t'. Copied all q' t')
                  (λ e t'. Stopped e)
                  (copy_chunks hasher os fuel max_size chunk_size sample_size q t1))
          → Ends
              (λ q t'. Copied all q t')
              (λ e t'. Stopped e)
              (after_read hasher os max_size sample_size p
                (copy_chunks hasher os fuel max_size chunk_size sample_size)
                chunk
                t)
      go [] t got same again =
          let whole : seen ≡ all = sym (
            c.stream
            ∙ ap (λ (r : Bytes). seen ++ r) (faithful.read_end chunk_size s positive got)
            ∙ append_nil seen) in
          let written : os.written t ≡ os.written s =
            ap os.written same ∙ faithful.read_written chunk_size s in
          let rest : os.rest s ≡ os.rest t =
            faithful.read_lem chunk_size s [] got ∙ ap os.rest (sym same) in
          returns p t (
            subst (λ x. Copied x p t) whole
              (record {
                stream = c.stream ∙ ap (λ (r : Bytes). seen ++ r) rest;
                stored = written ∙ c.stored;
                hashed = c.hashed;
                counted = c.counted;
                sampled = c.sampled;
                bounded = c.bounded;
              }))
      go (b ∷ bytes) t got same again =
          Ends-continue
            (chunk_step hasher os incremental faithful max_size sample_size all seen b bytes p s t c
              (faithful.read_lem chunk_size s (b ∷ bytes) got
                ∙ ap (λ (x : S). (b ∷ bytes) ++ os.rest x) (sym same))
              (ap os.written same ∙ faithful.read_written chunk_size s))
            (λ q t1 c1. again (seen ++ b ∷ bytes) q t1 c1 (grown fuel seen b bytes h))

  abbrev message : Raised
  message = storage_error "The temporary upload could not be stored."

  -- What is returned: the destination holds the stream, which is neither empty nor too long, with its
  -- length, its digest and its front.
  pub record IsStored (r : CopyResult) (t : S) : Type 0 where
    pub written : os.written t ≡ all
    pub size : r.size_bytes ≡ length all
    pub digest : r.sha256 ≡ hasher.hexdigest (hasher.update hasher.empty all)
    pub sample : r.signature_sample ≡ take sample_size all
    pub nonempty : 1 ≤ length all
    pub bounded : length all ≤ max_size

  -- What is raised, with its cause: a limit that the stream breaks, a call that failed before the
  -- closing, or the closing itself, which is the only one to let its `OSError` through.
  pub data IsReason : Raised → S → Type 0 where
    not_stored_reason : (t : S) → IsReason message t
    not_closed_reason : (s : S) → (os.close s).0 ≡ false → IsReason Raised.os_error (os.close s).1
    too_large_reason :
        (t : S) → max_size < length all → IsReason (Raised.application payload_too_large) t
    empty_reason : (t : S) → all ≡ [] → IsReason (Raised.application empty_file) t

  -- What the block under `try` raises, before `except OSError`.
  abbrev IsFailure : Raised → Type 0
  IsFailure e =
      (e ≡ Raised.os_error)
      ⊎ ((e ≡ Raised.application payload_too_large) × (max_size < length all))
      ⊎ ((e ≡ Raised.application empty_file) × (all ≡ []))

  no_bytes : (n : ℕ) (xs : Bytes) → n ≡ length xs → nat_beq n 0 ≡ true → xs ≡ []
  no_bytes n [] h k = refl
  no_bytes n (x ∷ xs) h k = absurd (ground (arith, h, k))

  some_bytes : (n : ℕ) (xs : Bytes) → n ≡ length xs → nat_beq n 0 ≡ false → 1 ≤ length xs
  some_bytes n [] h k = absurd (ground (arith, h, k))
  some_bytes n (x ∷ xs) h k = omega arith

  stopped : (e : Raised) → Stopped e → IsFailure e
  stopped e (inl os) = inl os
  stopped e (inr large) = inr (inl large)

  body-Ends :
      (s : S)
      → os.rest s ≡ all
      → os.written s ≡ []
      → Ends IsStored (λ e t. IsFailure e) (copy_body hasher os max_size chunk_size sample_size s)
  unfolding copy_body
  body-Ends s rest written =
      Ends-continue
        (Ends-weaken
          (copy_chunks-Ends (max_size + 1) [] (record { digest = start hasher; sample = [] }) s
            (record {
              stream = sym rest;
              stored = written;
              hashed = sym (incremental.update-nil hasher.empty);
              counted = refl;
              sampled = sym (take_nil sample_size);
              bounded = omega arith;
            })
            (omega arith))
          (λ p t c. c) (λ e t q. stopped e q))
        (λ p t c.
          Ends-continue {P' = λ _ t'. (t' ≡ t) × (1 ≤ length all)}
            (Ends-raise_when _ empty_file t
              (λ k. (refl, some_bytes p.digest.bytes_processed all c.counted k))
              (λ k. inr (inr (refl, no_bytes p.digest.bytes_processed all c.counted k))))
            (λ _ t1 (same, filled).
              Ends-continue {P' = λ _ t'. os.written t' ≡ all}
                (Ends-perform _ _ t1
                  (λ _. faithful.fsync_written t1 ∙ ap os.written same ∙ c.stored) (λ _. inl refl))
                (λ _ t2 w2.
                  Ends-continue {P' = λ _ t'. os.written t' ≡ all}
                    (Ends-perform _ _ t2 (λ _. faithful.fchmod_written t2 ∙ w2) (λ _. inl refl))
                    (λ _ t3 w3. returns _ t3 (record {
                      written = w3;
                      size = c.counted;
                      digest = ap hasher.hexdigest c.hashed;
                      sample = c.sampled;
                      nonempty = filled;
                      bounded = c.bounded;
                    })))))
    where
      take_nil : (n : ℕ) → take {A = ℕ} n [] ≡ []
      take_nil zero = refl
      take_nil (suc n) = refl

  -- What `except OSError` and `finally` are left with: no `OSError` is among it.
  abbrev IsCaught : Raised → Type 0
  IsCaught e = (t : S) → IsReason e t

  caught :
      (e : Raised) (t : S)
      → IsFailure e
      → Ends IsStored (λ e' t'. IsCaught e') (not_stored hasher os e t)
  caught Raised.os_error t f = raises _ t not_stored_reason
  caught Raised.database_error t (inl h) = absurd (cc)
  caught Raised.database_error t (inr (inl (h, long))) = absurd (cc)
  caught Raised.database_error t (inr (inr (h, nothing))) = absurd (cc)
  caught (Raised.application e) t (inl h) = absurd (cc)
  caught (Raised.application e) t (inr (inl (h, long))) =
      raises _ t (λ t'. subst (λ x. IsReason x t') (sym h) (too_large_reason t' long))
  caught (Raised.application e) t (inr (inr (h, nothing))) =
      raises _ t (λ t'. subst (λ x. IsReason x t') (sym h) (empty_reason t' nothing))

  kept_after :
      (r : CopyResult) (s t : S) → os.written t ≡ os.written s → IsStored r s → IsStored r t
  kept_after r s t h c = record {
    written = h ∙ c.written;
    size = c.size;
    digest = c.digest;
    sample = c.sample;
    nonempty = c.nonempty;
    bounded = c.bounded;
  }

  closed :
      (r : Outcome CopyResult × S)
      → Ends IsStored (λ e t. IsCaught e) r
      → Ends IsStored IsReason (and_close hasher os r)
  closed _ (returns r s c) =
      Ends-continue {P' = λ _ t. os.written t ≡ os.written s}
        (Ends-perform _ _ s (λ _. faithful.close_written s) (not_closed_reason s))
        (λ _ t h. returns r t (kept_after r s t h c))
  closed _ (raises e s q) =
      Ends-continue {P' = λ _ t. Unit {0}} (Ends-perform _ _ s (λ _. tt) (not_closed_reason s))
        (λ _ t _. raises e t (q t))

  -- For a positive chunk size, a hash object whose updates add up and calls that do what is
  -- documented, `copy_stream` returns only a stream that is not empty and at most `max_size` bytes
  -- long; then the destination holds the whole stream, and the result is its length, the digest of
  -- all of it and its first `sample_size` bytes. It raises that the upload is too large only where
  -- the stream is longer than `max_size`, that it is empty only where it is, an `OSError` only where
  -- the last call, that of closing, has failed, and else the storage error of an upload that was not
  -- stored. So the loops never run out of fuel.
  pub copy_stream-Ends :
      (s : S)
      → os.rest s ≡ all
      → Ends IsStored IsReason (copy_stream hasher os max_size chunk_size sample_size s)
  unfolding copy_stream
  copy_stream-Ends s rest =
      Ends-continue {P' = λ _ t. (os.rest t ≡ all) × (os.written t ≡ [])}
        (Ends-perform _ _ s (λ done. (faithful.create_rest s ∙ rest, faithful.create_lem s done))
          (λ _. not_stored_reason _))
        (λ _ t p. closed _ (Ends-handle (body-Ends t p.0 p.1) (λ e t' q. caught e t' q)))
