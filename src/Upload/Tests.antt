-- ===== src/Upload/Tests.antt =====
-- Copies of small streams to a destination that takes one byte at a time.
use software_hub.Prelude.{
  ℕ, zero, suc, ◌≤◌, true, Option, none, some, [], ◌∷◌, ◌++◌, ◌≡◌, refl, sym, ap, ◌∙◌, take, drop,
  arith, nat_eq,
}
use software_hub.Io.{Raised, returned, raised, raise_when, call}
use software_hub.Io.Rules.{Ends}
use software_hub.Storage.{Bytes}
use software_hub.Storage.Paths.{perform}
use software_hub.Storage.Hashing.{take-drop, update_streaming}
use software_hub.Storage.Memory.{recorder, recorder-IsIncremental}
use software_hub.Upload.{
  CopyResult, Copying, payload_too_large, extend_sample, write_all, copy_chunk, copy_chunks,
  copy_body, copy_stream,
}
use software_hub.Upload.Copied.{IsFaithful, append_nil}
use software_hub.Upload.Liveness.{IsHealthy, copy_stream_returns}
use software_hub.Upload.Stream.{IsStored, IsReason, copy_stream-Ends}

record Tape : Type 0 where
  ahead : Bytes
  behind : Bytes

abbrev put : Bytes → Tape → Option ℕ × Tape
put [] t = (some 0, t)
put (b ∷ bytes) t = (some 1, record t { behind = t.behind ++ b ∷ [] })

abbrev tape : Copying Tape
tape = record {
  read = λ n t. (some (take n t.ahead), record t { ahead = drop n t.ahead });
  create = λ t. (true, record t { behind = [] });
  write = λ b t. put b t;
  fsync = λ t. (true, t);
  fchmod = λ t. (true, t);
  close = λ t. (true, t);
  rest = λ t. t.ahead;
  written = λ t. t.behind;
}

front : (n : ℕ) (ahead chunk : Bytes) → some (take n ahead) ≡ some chunk → take n ahead ≡ chunk
front n ahead chunk h = cc

ended : (n : ℕ) (ahead : Bytes) → 1 ≤ n → some (take n ahead) ≡ some [] → ahead ≡ []
ended zero ahead h k = absurd (omega (arith, h))
ended (suc n) [] h k = refl
ended (suc n) (x ∷ ahead) h k = absurd (cc)

one_byte :
    (b : Bytes) (t : Tape) (n : ℕ)
    → (put b t).0 ≡ some n
    → (put b t).1.behind ≡ t.behind ++ take n b
one_byte [] t zero h = sym (append_nil t.behind)
one_byte [] t (suc n) h = sym (append_nil t.behind)
one_byte (x ∷ b) t n h = ap (λ (k : Option ℕ). t.behind ++ front_of k) h
  where
    front_of : Option ℕ → Bytes
    front_of none = []
    front_of (some k) = take k (x ∷ b)

put_rest : (b : Bytes) (t : Tape) → (put b t).1.ahead ≡ t.ahead
put_rest [] t = refl
put_rest (x ∷ b) t = refl

tape-IsFaithful : IsFaithful tape
tape-IsFaithful = record {
  read_lem = λ n t chunk h.
      sym (take-drop n t.ahead) ∙ ap (λ (c : Bytes). c ++ drop n t.ahead) (front n t.ahead chunk h);
  read_end = λ n t h k. ended n t.ahead h k;
  read_written = λ n t. refl;
  create_lem = λ t h. refl;
  create_rest = λ t. refl;
  write_lem = λ b t n h. one_byte b t n h;
  write_rest = λ b t. put_rest b t;
  fsync_written = λ t. refl;
  fchmod_written = λ t. refl;
  close_written = λ t. refl;
}

abbrev five_bytes : Tape
five_bytes = record { ahead = 80 ∷ 75 ∷ 3 ∷ 4 ∷ 9 ∷ []; behind = [] }

copies : copy_stream recorder tape 5 2 3 five_bytes ≡ (
  returned
      (record { size_bytes = 5; sha256 = five_bytes.ahead; signature_sample = 80 ∷ 75 ∷ 3 ∷ [] }),
  record { ahead = []; behind = five_bytes.ahead },
)
unfolding copy_stream copy_body copy_chunks copy_chunk write_all extend_sample update_streaming
    perform raise_when call
copies = refl

rejects_long :
    (copy_stream recorder tape 4 2 3 five_bytes).0 ≡ raised (Raised.application payload_too_large)
unfolding copy_stream copy_body copy_chunks copy_chunk write_all extend_sample update_streaming
    perform raise_when call
rejects_long = refl

copy_stream-Ends_example :
    Ends
      (IsStored recorder tape recorder-IsIncremental tape-IsFaithful 5 2 3
        (omega arith)
        five_bytes.ahead)
      (IsReason recorder tape recorder-IsIncremental tape-IsFaithful 5 2 3
        (omega arith)
        five_bytes.ahead)
      (copy_stream recorder tape 5 2 3 five_bytes)
copy_stream-Ends_example =
    copy_stream-Ends recorder tape recorder-IsIncremental tape-IsFaithful 5 2 3 (omega arith)
      five_bytes.ahead five_bytes refl

tape-IsHealthy : IsHealthy tape
tape-IsHealthy = record {
  reads = λ n t. (take n t.ahead, refl);
  creates = λ t. refl;
  writes = λ b bytes t. (0, refl);
  synchronizes = λ t. refl;
  hardens = λ t. refl;
  closes = λ t. refl;
}

copy_stream_returns_example :
    (result : CopyResult) × (t : Tape) × (copy_stream recorder tape 5 2 3 five_bytes
      ≡ (returned result, t))
    × IsStored recorder tape recorder-IsIncremental tape-IsFaithful 5 2 3
        (omega arith)
        five_bytes.ahead
        result
        t
copy_stream_returns_example =
    copy_stream_returns recorder tape tape-IsHealthy recorder-IsIncremental tape-IsFaithful 5 2 3
      (omega arith) five_bytes.ahead five_bytes refl (omega arith) (omega arith)
