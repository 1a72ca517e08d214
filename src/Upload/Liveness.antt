-- ===== src/Upload/Liveness.antt =====
-- storage/upload.py, _copy_stream: a stream within the limits is copied where no call fails.
use software_hub.Prelude.{
  ℕ, zero, suc, ◌+◌, ◌≤◌, Bool, true, false, Option, none, some, [], ◌∷◌, nat_beq, length, drop,
  if◌then◌else◌, ◌≡◌, ◌⊎◌, inl, inr, refl, ap, arith, nat_eq,
}
use software_hub.Io.{Raised, Outcome, returned, Io, return, raise}
use software_hub.Io.Rules.{
  Ends, returns, raises, Ends-continue, Ends-handle, Ends-raise_when, Ends-call,
}
use software_hub.Storage.{Bytes}
use software_hub.Storage.Moves.{Ends-perform}
use software_hub.Storage.Hashing.{Hasher, IsIncremental}
use software_hub.Upload.{
  Copying, CopyResult, Progress, payload_too_large, empty_file, copy_chunk, copy_chunks, write_all,
  after_read, copy_body, not_stored, and_close, copy_stream,
}
use software_hub.Upload.Copied.{IsFaithful}
use software_hub.Upload.Stream.{
  IsStored, IsReason, not_stored_reason, not_closed_reason, too_large_reason, empty_reason,
  copy_stream-Ends,
}

-- No call fails, and a write of some bytes takes one at least.
pub record IsHealthy {S : Type 0} (os : Copying S) : Type 0 where
  pub reads : (n : ℕ) (s : S) → (chunk : Bytes) × ((os.read n s).0 ≡ some chunk)
  pub creates : (s : S) → (os.create s).0 ≡ true
  pub writes :
      (b : ℕ) (bytes : Bytes) (s : S) → (n : ℕ) × ((os.write (b ∷ bytes) s).0 ≡ some (suc n))
  pub synchronizes : (s : S) → (os.fsync s).0 ≡ true
  pub hardens : (s : S) → (os.fchmod s).0 ≡ true
  pub closes : (s : S) → (os.close s).0 ≡ true

-- The errors that are not the system's.
abbrev IsLimit : Raised → Type 0
IsLimit e = (e ≡ Raised.application payload_too_large) ⊎ (e ≡ Raised.application empty_file)

-- A method that is stopped by a limit, or not at all.
abbrev Proceeds : {S A : Type 0} → Outcome A × S → Type 0
Proceeds r = Ends (λ _ _. Unit {0}) (λ e _. IsLimit e) r

no_failure : {A : Type 0} (a : A) (o : Option A) → o ≡ some a → o ≡ none → IsLimit Raised.os_error
no_failure a o h k = absurd (cc)

no_refusal : (b : Bool) (e : Raised) → b ≡ true → b ≡ false → IsLimit e
no_refusal b e h k = absurd (cc)

positive : (n k : ℕ) (o : Option ℕ) → o ≡ some (suc k) → o ≡ some n → nat_beq n 0 ≡ false
positive n k o h l = ground (arith, h, l)

module _ {S H : Type 0} (hasher : Hasher H) (os : Copying S) (healthy : IsHealthy os) where
  written_step :
      (b : Bool) (t : S)
      → b ≡ false
      → Proceeds ((if b then raise {A = Unit {0}} Raised.os_error else return tt) t)
  written_step false t h = returns tt t tt
  written_step true t h = absurd (cc)

  write_all-Proceeds :
      (fuel : ℕ) (view : Bytes) (s : S) → Proceeds (write_all hasher os fuel view s)
  unfolding write_all
  write_all-Proceeds zero view s = returns tt s tt
  write_all-Proceeds (suc fuel) [] s = returns tt s tt
  write_all-Proceeds (suc fuel) (b ∷ view) s =
      let (k, wrote) = healthy.writes b view s in
      Ends-continue {P' = λ n t. nat_beq n 0 ≡ false}
        (Ends-call _ _ s (λ n got. positive n k _ wrote got)
          (λ failed. no_failure (suc k) _ wrote failed))
        (λ n t p.
          Ends-continue (written_step (nat_beq n 0) t p)
            (λ _ t1 _. write_all-Proceeds fuel (drop n (b ∷ view)) t1))

  copy_chunk-Proceeds :
      (max_size sample_size : ℕ) (p : Progress H) (chunk : Bytes) (s : S)
      → Proceeds (copy_chunk hasher os max_size sample_size p chunk s)
  unfolding copy_chunk
  copy_chunk-Proceeds max_size sample_size p chunk s =
      Ends-continue {P' = λ _ _. Unit {0}}
        (Ends-raise_when _ payload_too_large s (λ _. tt) (λ _. inl refl))
        (λ _ t _.
          Ends-continue (write_all-Proceeds (length chunk) chunk t) (λ _ t1 _. returns _ t1 tt))

  after_read-Proceeds :
      (max_size sample_size : ℕ) (p : Progress H) (again : Progress H → Io S (Progress H))
      (chunk : Bytes) (s : S)
      → ((q : Progress H) (t : S) → Proceeds (again q t))
      → Proceeds (after_read hasher os max_size sample_size p again chunk s)
  after_read-Proceeds max_size sample_size p again [] s k = returns p s tt
  after_read-Proceeds max_size sample_size p again (b ∷ bytes) s k =
      Ends-continue (copy_chunk-Proceeds max_size sample_size p (b ∷ bytes) s) (λ q t _. k q t)

  copy_chunks-Proceeds :
      (fuel max_size chunk_size sample_size : ℕ) (p : Progress H) (s : S)
      → Proceeds (copy_chunks hasher os fuel max_size chunk_size sample_size p s)
  unfolding copy_chunks
  copy_chunks-Proceeds zero max_size chunk_size sample_size p s = returns p s tt
  copy_chunks-Proceeds (suc fuel) max_size chunk_size sample_size p s =
      let (chunk, got) = healthy.reads chunk_size s in
      Ends-continue {P' = λ _ _. Unit {0}}
        (Ends-call _ _ s (λ _ _. tt) (λ failed. no_failure chunk _ got failed))
        (λ bytes t _.
          after_read-Proceeds max_size sample_size p
            (copy_chunks hasher os fuel max_size chunk_size sample_size) bytes t
            (copy_chunks-Proceeds fuel max_size chunk_size sample_size))

  copy_body-Proceeds :
      (max_size chunk_size sample_size : ℕ) (s : S)
      → Proceeds (copy_body hasher os max_size chunk_size sample_size s)
  unfolding copy_body
  copy_body-Proceeds max_size chunk_size sample_size s =
      Ends-continue (copy_chunks-Proceeds (max_size + 1) max_size chunk_size sample_size _ s)
        (λ p t _.
          Ends-continue {P' = λ _ _. Unit {0}}
            (Ends-raise_when _ empty_file t (λ _. tt) (λ _. inr refl))
            (λ _ t1 _.
              Ends-continue {P' = λ _ _. Unit {0}}
                (Ends-perform _ _ t1 (λ _. tt)
                  (λ failed. no_refusal _ _ (healthy.synchronizes t1) failed))
                (λ _ t2 _.
                  Ends-continue {P' = λ _ _. Unit {0}}
                    (Ends-perform _ _ t2 (λ _. tt)
                      (λ failed. no_refusal _ _ (healthy.hardens t2) failed))
                    (λ _ t3 _. returns _ t3 tt))))

  caught : (e : Raised) (t : S) → IsLimit e → Proceeds (not_stored hasher os {A = CopyResult} e t)
  caught Raised.os_error t l = absurd (elim l [ inl h ↦ cc | inr h ↦ cc ])
  caught Raised.database_error t l = raises _ t l
  caught (Raised.application e) t l = raises _ t l

  closed : (r : Outcome CopyResult × S) → Proceeds r → Proceeds (and_close hasher os r)
  closed _ (returns r s p) =
      Ends-continue {P' = λ _ _. Unit {0}}
        (Ends-perform _ _ s (λ _. tt) (λ failed. no_refusal _ _ (healthy.closes s) failed))
        (λ _ t _. returns r t tt)
  closed _ (raises e s l) =
      Ends-continue {P' = λ _ _. Unit {0}}
        (Ends-perform _ _ s (λ _. tt) (λ failed. no_refusal _ _ (healthy.closes s) failed))
        (λ _ t _. raises e t l)

  copy_stream-Proceeds :
      (max_size chunk_size sample_size : ℕ) (s : S)
      → Proceeds (copy_stream hasher os max_size chunk_size sample_size s)
  unfolding copy_stream
  copy_stream-Proceeds max_size chunk_size sample_size s =
      Ends-continue {P' = λ _ _. Unit {0}}
        (Ends-perform _ _ s (λ _. tt) (λ failed. no_refusal _ _ (healthy.creates s) failed))
        (λ _ t _. closed _ (
          Ends-handle (copy_body-Proceeds max_size chunk_size sample_size t)
            (λ e t1 l. caught e t1 l)))

  module _ (incremental : IsIncremental hasher) (faithful : IsFaithful os)
      (max_size chunk_size sample_size : ℕ) (positive_chunk : 1 ≤ chunk_size) (all : Bytes) where
    abbrev Stored : CopyResult → S → Type 0
    Stored =
        IsStored hasher os incremental faithful max_size chunk_size sample_size positive_chunk all

    abbrev Reason : Raised → S → Type 0
    Reason =
        IsReason hasher os incremental faithful max_size chunk_size sample_size positive_chunk all

    no_reason :
        {A : Type 0} (e : Raised) (t : S)
        → Reason e t
        → IsLimit e
        → 1 ≤ length all
        → length all ≤ max_size
        → A
    no_reason e t (not_stored_reason _) (inl h) n b = absurd (cc)
    no_reason e t (not_stored_reason _) (inr h) n b = absurd (cc)
    no_reason e t (not_closed_reason _ _) (inl h) n b = absurd (cc)
    no_reason e t (not_closed_reason _ _) (inr h) n b = absurd (cc)
    no_reason e t (too_large_reason _ long) l n b = absurd (omega (arith, long, b))
    no_reason e t (empty_reason _ nothing) l n b = absurd (omega (arith, n, ap length nothing))

    returned_only :
        (r : Outcome CopyResult × S)
        → Ends Stored Reason r
        → Proceeds r
        → 1 ≤ length all
        → length all ≤ max_size
        → (result : CopyResult) × (t : S) × (r ≡ (returned result, t)) × Stored result t
    returned_only _ (returns a t c) p n b = (a, t, refl, c)
    returned_only _ (raises e t q) (raises _ _ l) n b = no_reason e t q l n b

    -- For a positive chunk size, a hash object whose updates add up and calls that do what is
    -- documented and do not fail, `copy_stream` returns for every stream that is not empty and at most
    -- `max_size` bytes long; the destination then holds the stream, and the result tells its length, its digest
    -- and its front.
    pub copy_stream_returns :
        (s : S)
        → os.rest s ≡ all
        → 1 ≤ length all
        → length all ≤ max_size
        → (result : CopyResult) × (t : S) × (copy_stream hasher os max_size chunk_size sample_size s
            ≡ (returned result, t))
          × IsStored hasher os incremental faithful max_size chunk_size sample_size positive_chunk
              all result t
    copy_stream_returns s rest n b =
        returned_only _
          (copy_stream-Ends hasher os incremental faithful max_size chunk_size sample_size
            positive_chunk all s rest)
          (copy_stream-Proceeds max_size chunk_size sample_size s) n b
