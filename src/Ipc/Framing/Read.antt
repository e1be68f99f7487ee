-- ===== src/Ipc/Framing/Read.antt =====
-- What `read_frame` takes off the wire.
use meta_text.Prelude.{
  ℕ, ◌/◌, ◌%◌, ◌≤◌, ◌<◌, ◌≡◌, ◌∙◌, List, [], ◌∷◌, ◌++◌, some, ok, length, take, drop,
  take-length-append, drop-length-append, length-append, arith,
}
use meta_text.Prelude.Bytes.{to_be_bytes, from_be_bytes, from_be_bytes-to_be_bytes}
use meta_text.Io.{ByteReader, HealthyReader}
use meta_text.Ipc.Framing.{encode, max_frame_len, read_payload, read_frame}

module _ (io : ByteReader) (healthy : HealthyReader io) where
  pub read_payload_full :
      (n : ℕ) (r : io.Reader)
      → 0 < n
      → n ≤ max_frame_len
      → n ≤ length (io.contents r)
      → ((read_payload io n r).0 ≡ ok (some (take n (io.contents r))))
        × (io.contents (read_payload io n r).1 ≡ drop n (io.contents r))
  unfolding read_payload
  read_payload_full n r pos fits there = ground (arith, healthy.read_exact_full n r there)

  -- The header: four bytes are read, and the body is asked for by their value.
  pub read_frame_header :
      (a b c d : ℕ) (bs : List ℕ) (r : io.Reader)
      → io.contents r ≡ a ∷ b ∷ c ∷ d ∷ bs
      → (r' : io.Reader) × (io.contents r' ≡ bs)
        × (read_frame io r ≡ read_payload io (from_be_bytes (a ∷ b ∷ c ∷ d ∷ [])) r')
  unfolding read_frame
  read_frame_header a b c d bs r starts =
      let r1 = (io.read_one r).1 in
      let first = healthy.read_one_byte r a (b ∷ c ∷ d ∷ bs) starts in
      let long : 3 ≤ length (io.contents r1) = rw first.1 (omega arith) in
      let three = healthy.read_exact_full 3 r1 long in
      ((io.read_exact 3 r1).1, three.1 ∙ rw first.1, ground (arith, first, three))

  -- A stream that starts with an encoded payload gives that payload, and the rest stays to be read.
  pub read_frame-encode :
      (payload rest : List ℕ) (r : io.Reader)
      → 0 < length payload
      → length payload ≤ max_frame_len
      → io.contents r ≡ encode payload ++ rest
      → ((read_frame io r).0 ≡ ok (some payload)) × (io.contents (read_frame io r).1 ≡ rest)
  unfolding to_be_bytes
  read_frame-encode payload rest r pos fits starts =
      let n = length payload in
      let (r', left, runs) =
        read_frame_header (n / 256 / 256 / 256 % 256) (n / 256 / 256 % 256) (n / 256 % 256)
          (n % 256) (payload ++ rest) r starts in
      let value = from_be_bytes-to_be_bytes 4 n (omega arith) in
      let there : n ≤ length (io.contents r') =
        rw left (omega (arith, length-append payload rest)) in
      let full = read_payload_full n r' pos fits there in
      ground (
        arith,
        runs,
        value,
        full,
        left,
        take-length-append payload rest,
        drop-length-append payload rest,
      )
