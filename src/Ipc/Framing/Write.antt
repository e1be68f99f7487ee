-- ===== src/Ipc/Framing/Write.antt =====
-- What `write_frame` puts on the wire.
use meta_text.Prelude.{
  ℕ, if◌then◌else◌, ◌≤◌, ◌<◌, ◌≡◌, ◌⊎◌, List, ◌++◌, ok, err, length, ◌==◌, arith,
}
use meta_text.Io.{IoError, ByteWriter, HealthyWriter, empty_write, oversized_write}
use meta_text.Ipc.Framing.{encode, max_frame_len, write_frame}
use meta_text.Prelude.Bytes.{to_be_bytes}
use mathlib.Core.List.{append_assoc}

module _ (io : ByteWriter) (healthy : HealthyWriter io) where
  -- An accepted payload is written as its encoding.
  pub written-write_frame :
      (payload : List ℕ) (w : io.Writer)
      → 0 < length payload
      → length payload ≤ max_frame_len
      → ((write_frame io payload w).0 ≡ ok tt)
        × (io.written (write_frame io payload w).1 ≡ io.written w ++ encode payload)
  unfolding write_frame
  written-write_frame payload w pos fits =
      let header = to_be_bytes 4 (length payload) in
      let w1 = (io.write_all header w).1 in
      let w2 = (io.write_all payload w1).1 in
      ground (
        arith,
        healthy.write_all_done header w,
        healthy.write_all_done payload w1,
        healthy.flush_done w2,
        append_assoc (io.written w) header payload,
      )

abbrev pub refusal : List ℕ → IoError
refusal payload = if length payload == 0 then empty_write else oversized_write (length payload)

module _ (io : ByteWriter) where
  -- An empty or over-long payload is refused with the error for its case, before anything is written.
  pub write_frame_refuses :
      (payload : List ℕ) (w : io.Writer)
      → (length payload ≡ 0) ⊎ (max_frame_len < length payload)
      → write_frame io payload w ≡ (err (refusal payload), w)
  unfolding write_frame
  write_frame_refuses payload w bad = ground arith
