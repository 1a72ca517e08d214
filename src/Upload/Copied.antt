-- ===== src/Upload/Copied.antt =====
-- storage/upload.py, _copy_stream: what is copied, and what the digest and the sample tell of it.
use software_hub.Prelude.{
  ℕ, zero, suc, ◌+◌, ◌≤◌, ◌<◌, Bool, true, false, some, [], ◌∷◌, ◌++◌, nat_beq, length, take, drop,
  if◌then◌else◌, ◌≡◌, ◌⊎◌, inl, inr, refl, sym, ap, ◌∙◌, arith, length-append, nat_eq,
}
use software_hub.Io.{Raised, return, raise}
use software_hub.Io.Rules.{
  Ends, returns, raises, Ends-continue, Ends-weaken, Ends-raise_when, Ends-call,
}
use software_hub.Storage.{Bytes}
use software_hub.Storage.Hashing.{Hasher, IsIncremental, update_streaming, take-drop}
use software_hub.Upload.{Copying, Progress, payload_too_large, extend_sample, write_all, copy_chunk}

-- The documented behaviour of the calls, where nothing else writes to the destination: a read
-- takes from the front of the stream and gives nothing at its end only; a write adds what it counts.
pub record IsFaithful {S : Type 0} (os : Copying S) : Type 0 where
  pub read_lem :
      (n : ℕ) (s : S) (chunk : Bytes)
      → (os.read n s).0 ≡ some chunk
      → os.rest s ≡ chunk ++ os.rest (os.read n s).1
  pub read_end : (n : ℕ) (s : S) → 1 ≤ n → (os.read n s).0 ≡ some [] → os.rest s ≡ []
  pub read_written : (n : ℕ) (s : S) → os.written (os.read n s).1 ≡ os.written s
  pub create_lem : (s : S) → (os.create s).0 ≡ true → os.written (os.create s).1 ≡ []
  pub create_rest : (s : S) → os.rest (os.create s).1 ≡ os.rest s
  pub write_lem :
      (b : Bytes) (s : S) (n : ℕ)
      → (os.write b s).0 ≡ some n
      → os.written (os.write b s).1 ≡ os.written s ++ take n b
  pub write_rest : (b : Bytes) (s : S) → os.rest (os.write b s).1 ≡ os.rest s
  pub fsync_written : (s : S) → os.written (os.fsync s).1 ≡ os.written s
  pub fchmod_written : (s : S) → os.written (os.fchmod s).1 ≡ os.written s
  pub close_written : (s : S) → os.written (os.close s).1 ≡ os.written s

append_assoc : (a b c : Bytes) → (a ++ b) ++ c ≡ a ++ (b ++ c)
append_assoc [] b c = refl
append_assoc (x ∷ a) b c = ap (λ (r : Bytes). x ∷ r) (append_assoc a b c)

pub append_nil : (a : Bytes) → a ++ [] ≡ a
append_nil [] = refl
append_nil (x ∷ a) = ap (λ (r : Bytes). x ∷ r) (append_nil a)

length-drop : (n : ℕ) (xs : Bytes) → length (drop n xs) ≤ length xs
length-drop zero xs = omega arith
length-drop (suc n) [] = omega arith
length-drop (suc n) (x ∷ xs) = omega (arith, length-drop n xs)

extend_sample-cons :
    (n : ℕ) (x : ℕ) (s chunk : Bytes)
    → extend_sample (suc n) (x ∷ s) chunk ≡ x ∷ extend_sample n s chunk
unfolding extend_sample
extend_sample-cons n x s chunk = ground arith

-- The sample is the front of what was read.
extend_sample-take :
    (n : ℕ) (seen chunk : Bytes) → extend_sample n (take n seen) chunk ≡ take n (seen ++ chunk)
unfolding extend_sample
extend_sample-take zero seen chunk = refl
extend_sample-take (suc n) [] chunk = ground arith
extend_sample-take (suc n) (x ∷ seen) chunk =
    extend_sample-cons n x (take n seen) chunk
    ∙ ap (λ (r : Bytes). x ∷ r) (extend_sample-take n seen chunk)

module _ {S H : Type 0} (hasher : Hasher H) (os : Copying S) where
  module _ (incremental : IsIncremental hasher) (faithful : IsFaithful os) where
    -- The view is written whole, or the system raises.
    write_all-Ends :
        (fuel : ℕ) (view : Bytes) (s : S)
        → length view ≤ fuel
        → Ends
            (λ _ t. (os.written t ≡ os.written s ++ view) × (os.rest t ≡ os.rest s))
            (λ e t. e ≡ Raised.os_error)
            (write_all hasher os fuel view s)
    unfolding write_all
    write_all-Ends zero [] s h = returns tt s (sym (append_nil (os.written s)), refl)
    write_all-Ends zero (b ∷ view) s h = absurd (omega (arith, h))
    write_all-Ends (suc fuel) [] s h = returns tt s (sym (append_nil (os.written s)), refl)
    write_all-Ends (suc fuel) (b ∷ view) s h =
        Ends-continue
          {P' = λ n t. (os.written t ≡ os.written s ++ take n (b ∷ view)) × (os.rest t ≡ os.rest s)}
          (Ends-call _ _ s
            (λ n some_written.
              (faithful.write_lem (b ∷ view) s n some_written, faithful.write_rest (b ∷ view) s))
            (λ _. refl))
          (λ n t p.
            Ends-continue {P' = λ _ t'. (1 ≤ n) × (t' ≡ t)} (positive_step n t (nat_beq n 0) refl)
              (λ _ t1 q.
                let left : length (drop n (b ∷ view)) ≤ fuel = dropped n q.0 in
                Ends-weaken (write_all-Ends fuel (drop n (b ∷ view)) t1 left)
                  (λ _ t2 r. (
                    r.0
                        ∙ ap (λ (w : Bytes). w ++ drop n (b ∷ view)) (ap os.written q.1 ∙ p.0)
                        ∙ append_assoc (os.written s) (take n (b ∷ view)) (drop n (b ∷ view))
                        ∙ ap (λ (w : Bytes). os.written s ++ w) (take-drop n (b ∷ view)),
                    r.1 ∙ ap os.rest q.1 ∙ p.1,
                  ))
                  (λ e t2 r. r)))
      where
        positive_step :
            (n : ℕ) (t : S) (b : Bool)
            → nat_beq n 0 ≡ b
            → Ends
                (λ _ t'. (1 ≤ n) × (t' ≡ t))
                (λ e t'. e ≡ Raised.os_error)
                ((if b then raise Raised.os_error else return tt) t)
        positive_step n t true k = raises _ t refl
        positive_step n t false k = returns tt t (ground arith, refl)

        dropped : (n : ℕ) → 1 ≤ n → length (drop n (b ∷ view)) ≤ fuel
        dropped zero k = absurd (omega (arith, k))
        dropped (suc n) k = omega (arith, length-drop n view, h)

    -- What the loop knows: what it has seen of the stream stands in the destination, in the digest
    -- and, up to the sample's size, in the sample.
    pub record IsCopied (max_size sample_size : ℕ) (all seen : Bytes) (p : Progress H) (s : S)
        : Type 0 where
      pub stream : all ≡ seen ++ os.rest s
      pub stored : os.written s ≡ seen
      pub hashed : p.digest.hasher ≡ hasher.update hasher.empty seen
      pub counted : p.digest.bytes_processed ≡ length seen
      pub sampled : p.sample ≡ take sample_size seen
      pub bounded : length seen ≤ max_size

    -- What the loop raises.
    abbrev pub IsStopped : ℕ → Bytes → Raised → Type 0
    IsStopped max_size all e =
        (e ≡ Raised.os_error)
        ⊎ ((e ≡ Raised.application payload_too_large) × (max_size < length all))

    pub chunk_step :
        (max_size sample_size : ℕ) (all seen : Bytes) (b : ℕ) (bytes : Bytes) (p : Progress H)
        (s t : S)
        → IsCopied max_size sample_size all seen p s
        → os.rest s ≡ (b ∷ bytes) ++ os.rest t
        → os.written t ≡ os.written s
        → Ends
            (λ q t'. IsCopied max_size sample_size all (seen ++ b ∷ bytes) q t')
            (λ e t'. IsStopped max_size all e)
            (copy_chunk hasher os max_size sample_size p (b ∷ bytes) t)
    unfolding copy_chunk update_streaming
    chunk_step max_size sample_size all seen b bytes p s t c rest written =
        let whole : all ≡ (seen ++ b ∷ bytes) ++ os.rest t =
          c.stream
          ∙ ap (λ (r : Bytes). seen ++ r) rest
          ∙ sym (append_assoc seen (b ∷ bytes) (os.rest t)) in
        let lengths = length-append seen (b ∷ bytes) in
        let total : length all ≡ length (seen ++ b ∷ bytes) + length (os.rest t) =
          ap length whole ∙ length-append (seen ++ b ∷ bytes) (os.rest t) in
        let counted = c.counted in
        Ends-continue {P' = λ _ t'. (t' ≡ t) × (length (seen ++ b ∷ bytes) ≤ max_size)}
          (Ends-raise_when _ _ t (λ k. (refl, ground (arith, k, lengths, counted)))
            (λ k. inr (refl, ground (arith, k, lengths, counted, total))))
          (λ _ t1 (same, fits).
            Ends-continue
              (Ends-weaken (write_all-Ends (length (b ∷ bytes)) (b ∷ bytes) t1 (omega arith))
                (λ _ t2 q. q) (λ e t2 q. inl q))
              (λ _ t2 (added, kept). returns _ t2 (record {
                stream =
                    whole
                    ∙ ap (λ (r : Bytes). (seen ++ b ∷ bytes) ++ r)
                        (ap os.rest (sym same) ∙ sym kept);
                stored =
                    added
                    ∙ ap (λ (r : Bytes). r ++ b ∷ bytes) (ap os.written same ∙ written ∙ c.stored);
                hashed =
                    ap (λ (h : H). hasher.update h (b ∷ bytes)) c.hashed
                    ∙ incremental.update-append hasher.empty seen (b ∷ bytes);
                counted = ap (λ (n : ℕ). n + length (b ∷ bytes)) c.counted ∙ sym lengths;
                sampled =
                    ap (λ (x : Bytes). extend_sample sample_size x (b ∷ bytes)) c.sampled
                    ∙ extend_sample-take sample_size seen (b ∷ bytes);
                bounded = fits;
              })))
