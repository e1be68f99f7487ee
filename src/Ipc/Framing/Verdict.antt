-- ===== src/Ipc/Framing/Verdict.antt =====
-- `read_frame` on every stream: a pure description of its outcome, and what follows from it.
use meta_text.Prelude.{
  ℕ, ◌≤◌, ◌<◌, ◌≡◌, ◌≢◌, refl, sym, ◌∙◌, ap, List, [], ◌∷◌, ◌++◌, Option, none, some, Result, ok,
  err, length, take, take-append-drop, length-append, length-take, ltb, ◌==◌, arith, All,
  if◌then◌else◌,
}
use meta_text.Prelude.Bytes.{
  IsByte, to_be_bytes, from_be_bytes, to_be_bytes-from_be_bytes_u32, from_be_bytes-to_be_bytes,
}
use meta_text.Io.{IoError, unexpected_eof, empty_read, oversized_read, ByteReader, HealthyReader}
use meta_text.Ipc.Framing.{encode, max_frame_len, read_payload, read_frame}
use meta_text.Ipc.Framing.Read.{read_frame_header}

-- The body of a frame that declares `n` bytes, on a stream that holds `bs`.
abbrev pub body_verdict : ℕ → List ℕ → Result IoError (Option (List ℕ))
body_verdict n bs =
    if n == 0
    then err empty_read
    else if ltb max_frame_len n
    then err (oversized_read n)
    else if ltb (length bs) n
    then err unexpected_eof
    else ok (some (take n bs))

abbrev pub verdict : List ℕ → Result IoError (Option (List ℕ))
verdict [] = ok none
verdict (a ∷ b ∷ c ∷ d ∷ bs) = body_verdict (from_be_bytes (a ∷ b ∷ c ∷ d ∷ [])) bs
verdict _ = err unexpected_eof

verdict_truncated :
    (bs missing payload : List ℕ)
    → length payload ≤ max_frame_len
    → bs ++ missing ≡ encode payload
    → bs ≢ []
    → missing ≢ []
    → verdict bs ≡ err unexpected_eof
unfolding to_be_bytes
verdict_truncated [] missing payload fits cut some_read some_missing = absurd (some_read refl)
verdict_truncated (a ∷ b ∷ c ∷ d ∷ bs) [] payload fits cut some_read some_missing =
    absurd (some_missing refl)
verdict_truncated (a ∷ b ∷ c ∷ d ∷ bs) (m ∷ missing) payload fits cut some_read some_missing =
    let n = length payload in
    let value = from_be_bytes-to_be_bytes 4 n (omega arith) in
    let shorter = length-append bs (m ∷ missing) in ground (arith, value, shorter)
verdict_truncated (a ∷ b ∷ c ∷ []) missing payload fits cut some_read some_missing = refl
verdict_truncated (a ∷ b ∷ []) missing payload fits cut some_read some_missing = refl
verdict_truncated (a ∷ []) missing payload fits cut some_read some_missing = refl

module _ (io : ByteReader) (healthy : HealthyReader io) where
  read_payload-verdict :
      (n : ℕ) (r : io.Reader) → (read_payload io n r).0 ≡ body_verdict n (io.contents r)
  unfolding read_payload
  read_payload-verdict n r =
      ground (arith, healthy.read_exact_full n r, healthy.read_exact_short n r)

  read_payload_sound :
      (n : ℕ) (payload : List ℕ) (r : io.Reader)
      → (read_payload io n r).0 ≡ ok (some payload)
      → (io.contents r ≡ payload ++ io.contents (read_payload io n r).1)
        × (length payload ≡ n)
        × (0 < n)
        × (n ≤ max_frame_len)
  unfolding read_payload
  read_payload_sound n payload r accepted = ground (
    arith,
    accepted,
    healthy.read_exact_full n r,
    healthy.read_exact_short n r,
    length-take n (io.contents r),
    take-append-drop n (io.contents r),
  )

  read_frame_short :
      (a : ℕ) (bs : List ℕ) (r : io.Reader)
      → io.contents r ≡ a ∷ bs
      → length bs < 3
      → (read_frame io r).0 ≡ err unexpected_eof
  unfolding read_frame
  read_frame_short a bs r starts short =
      let r1 = (io.read_one r).1 in
      let first = healthy.read_one_byte r a bs starts in
      let cut = healthy.read_exact_short 3 r1 (rw first.1 short) in ground (arith, first, cut)

  read_frame-verdict_on :
      (bs : List ℕ) (r : io.Reader) → io.contents r ≡ bs → (read_frame io r).0 ≡ verdict bs
  read_frame-verdict_on [] r e = unfold read_frame in ground (arith, healthy.read_one_end r e)
  read_frame-verdict_on (a ∷ b ∷ c ∷ d ∷ bs) r e =
      let (r', left, runs) = read_frame_header io healthy a b c d bs r e in
      rw runs (read_payload-verdict _ r' ∙ rw left)
  read_frame-verdict_on (a ∷ b ∷ c ∷ []) r e = read_frame_short a _ r e (omega arith)
  read_frame-verdict_on (a ∷ b ∷ []) r e = read_frame_short a _ r e (omega arith)
  read_frame-verdict_on (a ∷ []) r e = read_frame_short a _ r e (omega arith)

  -- On every healthy stream `read_frame` gives the outcome that the wire format calls for: the end
  -- of the stream, a truncated header or body, a declared length out of bounds, or the payload.
  pub read_frame-verdict : (r : io.Reader) → (read_frame io r).0 ≡ verdict (io.contents r)
  read_frame-verdict r = read_frame-verdict_on (io.contents r) r refl

  -- A stream that ends inside a frame, after its first byte, is reported as truncated.
  pub read_frame_truncated :
      (payload missing : List ℕ) (r : io.Reader)
      → 0 < length payload
      → length payload ≤ max_frame_len
      → io.contents r ++ missing ≡ encode payload
      → io.contents r ≢ []
      → missing ≢ []
      → (read_frame io r).0 ≡ err unexpected_eof
  read_frame_truncated payload missing r pos fits cut some_read some_missing =
      read_frame-verdict r
      ∙ verdict_truncated (io.contents r) missing payload fits cut some_read some_missing

  -- What is accepted is exactly an encoding: the bytes taken off the stream are those of the payload
  -- handed out, whose length is within the bounds.
  pub read_frame_sound :
      (payload : List ℕ) (r : io.Reader)
      → All IsByte (io.contents r)
      → (read_frame io r).0 ≡ ok (some payload)
      → (io.contents r ≡ encode payload ++ io.contents (read_frame io r).1)
        × (0 < length payload)
        × (length payload ≤ max_frame_len)
  read_frame_sound payload r bytes accepted = sound_on (io.contents r) r refl bytes accepted
    where
      sound_on :
          (bs : List ℕ) (s : io.Reader)
          → io.contents s ≡ bs
          → All IsByte bs
          → (read_frame io s).0 ≡ ok (some payload)
          → (io.contents s ≡ encode payload ++ io.contents (read_frame io s).1)
            × (0 < length payload)
            × (length payload ≤ max_frame_len)
      sound_on (a ∷ b ∷ c ∷ d ∷ bs) s e (ha, (hb, (hc, (hd, rest)))) h =
          let (r', left, runs) = read_frame_header io healthy a b c d bs s e in
          let n = from_be_bytes (a ∷ b ∷ c ∷ d ∷ []) in
          let (split, len, pos, fits) =
            read_payload_sound n payload r' (ap (λ t. t.0) (sym runs) ∙ h) in
          (
            rw (len, to_be_bytes-from_be_bytes_u32 a b c d ha hb hc hd, runs)
                (e ∙ ap (λ t. a ∷ b ∷ c ∷ d ∷ t) (sym left ∙ split)),
            omega arith,
            omega arith,
          )
      sound_on _ s e bytes h = cc (h, read_frame-verdict_on _ s e)
