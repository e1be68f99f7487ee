-- ===== src/Ipc/Framing/Message.antt =====
-- Whole messages: encoded by serde_json, framed, read back and decoded.
use meta_text.Prelude.{ℕ, ◌≤◌, ◌<◌, ◌≡◌, List, ◌++◌, some, ok, length, arith}
use meta_text.Io.{ByteReader, ByteWriter, HealthyReader, HealthyWriter}
use meta_text.Ipc.Framing.{Json, encode, max_frame_len, read_message, write_message}
use meta_text.Ipc.Framing.Read.{read_frame-encode}
use meta_text.Ipc.Framing.Write.{written-write_frame}

module _ {M : Type 0} (json : Json M) (out : ByteWriter) (inp : ByteReader)
    (out_healthy : HealthyWriter out) (inp_healthy : HealthyReader inp) where
  -- A message whose JSON fits a frame and decodes to itself survives the way to the peer; what
  -- follows it on the stream stays to be read.
  pub read_message-write_message :
      (message : M) (bytes rest : List ℕ) (w : out.Writer) (r : inp.Reader)
      → json.to_vec message ≡ some bytes
      → json.from_slice bytes ≡ some message
      → 0 < length bytes
      → length bytes ≤ max_frame_len
      → inp.contents r ≡ encode bytes ++ rest
      → ((write_message json out message w).0 ≡ ok tt)
        × (out.written (write_message json out message w).1 ≡ out.written w ++ encode bytes)
        × ((read_message json inp r).0 ≡ ok (some message))
        × (inp.contents (read_message json inp r).1 ≡ rest)
  unfolding read_message write_message
  read_message-write_message message bytes rest w r encoded decoded pos fits starts =
      let wrote = written-write_frame out out_healthy bytes w pos fits in
      let read = read_frame-encode inp inp_healthy bytes rest r pos fits starts in
      ground (arith, wrote, read)
