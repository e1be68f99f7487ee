-- ===== src/Net/Frame/RoundTrip.antt =====
-- A frame that is encoded is read back, with the message that it carries.
use mathlib.Core.List.{append_assoc}
use meta_text.Prelude.{
  ℕ, ◌^◌, ◌≤◌, ◌<◌, ◌≡◌, refl, sym, ◌∙◌, List, [], ◌∷◌, ◌++◌, some, ok, err, length, take, drop,
  length-append, take-length-append, drop-length-append, arith, ap,
}
use meta_text.Prelude.Bytes.{to_be_bytes, length-to_be_bytes, from_be_bytes-to_be_bytes}
use meta_text.Io.{oversized_read, ByteReader, HealthyReader}
use meta_text.Net.Frame.{
  MessageKind, action, ContentType, max_frame_size, encode_frame, saturating_u32, read_body,
  read_frame,
}

-- What a receiver learns of the attributes: an action is always shown as text.
abbrev pub carried : MessageKind → ContentType → ContentType
carried MessageKind.text c = c
carried action c = ContentType.text

module _ (io : ByteReader) (healthy : HealthyReader io) where
  -- `read_exact` of a prefix of the stream.
  read_exact_prefix :
      (n : ℕ) (bs rest : List ℕ) (r : io.Reader)
      → n ≡ length bs
      → io.contents r ≡ bs ++ rest
      → ((io.read_exact n r).0 ≡ ok bs) × (io.contents (io.read_exact n r).1 ≡ rest)
  read_exact_prefix n bs rest r measured starts =
      let there : length bs ≤ length (io.contents r) =
        rw starts (omega (arith, length-append bs rest)) in
      let full = healthy.read_exact_full (length bs) r there in
      rw measured (
        full.0 ∙ ap ok (ap (take (length bs)) starts ∙ take-length-append bs rest),
        full.1 ∙ ap (drop (length bs)) starts ∙ drop-length-append bs rest,
      )

  -- After the kind, the four length bytes decide between the refusal and the payload.
  read_body-encode :
      (kind : ℕ) (payload rest : List ℕ) (r : io.Reader)
      → length payload ≤ max_frame_size
      → io.contents r ≡ to_be_bytes 4 (length payload) ++ (payload ++ rest)
      → ((read_body io kind r).0 ≡ ok (some (kind, payload)))
        × (io.contents (read_body io kind r).1 ≡ rest)
  unfolding read_body
  read_body-encode kind payload rest r fits starts =
      let n = length payload in
      let header = to_be_bytes 4 n in
      let four = length-to_be_bytes 4 n in
      let (head, left) = read_exact_prefix 4 header (payload ++ rest) r (sym four) starts in
      let r' = (io.read_exact 4 r).1 in
      let value = from_be_bytes-to_be_bytes 4 n (omega arith) in
      let there : n ≤ length (io.contents r') =
        rw left (omega (arith, length-append payload rest)) in
      let body = healthy.read_exact_full n r' there in
      ground (
        arith,
        head,
        left,
        value,
        body,
        take-length-append payload rest,
        drop-length-append payload rest,
      )

  -- A frame within the limit that stands at the front of the stream is read back with its kind, and
  -- the rest of the stream stays to be read.
  pub read_frame-encode_frame :
      (kind : ℕ) (payload rest : List ℕ) (r : io.Reader)
      → length payload ≤ max_frame_size
      → io.contents r ≡ encode_frame kind payload ++ rest
      → ((read_frame io r).0 ≡ ok (some (kind, payload))) × (io.contents (read_frame io r).1 ≡ rest)
  unfolding read_frame encode_frame
  read_frame-encode_frame kind payload rest r fits starts =
      let n = length payload in
      let small : saturating_u32 n ≡ n = ground arith in
      let wire : (to_be_bytes 4 (saturating_u32 n) ++ payload) ++ rest
          ≡ to_be_bytes 4 n ++ (payload ++ rest) =
        rw small (append_assoc (to_be_bytes 4 n) payload rest) in
      let (first, left) = read_exact_prefix 1 (kind ∷ []) _ r refl starts in
      let r' = (io.read_exact 1 r).1 in
      let body = read_body-encode kind payload rest r' fits (left ∙ wire) in
      ground (arith, first, body)

  -- A frame whose payload is above the limit is written by the sender without complaint, and refused
  -- by every reader that meets it.
  pub read_frame_oversized :
      (kind : ℕ) (payload rest : List ℕ) (r : io.Reader)
      → max_frame_size < length payload
      → length payload < 2 ^ 32
      → io.contents r ≡ encode_frame kind payload ++ rest
      → (read_frame io r).0 ≡ err (oversized_read (length payload))
  unfolding read_frame encode_frame read_body
  read_frame_oversized kind payload rest r large small starts =
      let n = length payload in
      let (first, left) = read_exact_prefix 1 (kind ∷ []) _ r refl starts in
      let exact : saturating_u32 n ≡ n = ground arith in
      let wire : (to_be_bytes 4 (saturating_u32 n) ++ payload) ++ rest
          ≡ to_be_bytes 4 n ++ (payload ++ rest) =
        rw exact (append_assoc (to_be_bytes 4 n) payload rest) in
      let r' = (io.read_exact 1 r).1 in
      let (head, _) =
        read_exact_prefix 4 (to_be_bytes 4 n) (payload ++ rest) r' (sym (length-to_be_bytes 4 n))
          (left ∙ wire) in
      let value = from_be_bytes-to_be_bytes 4 n (omega arith) in ground (arith, first, head, value)
