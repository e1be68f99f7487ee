-- ===== src/Ipc/Framing/Stream.antt =====
-- Frames one after another: what one side writes, the other side reads.
use mathlib.Core.List.{append_assoc, append-nil}
use meta_text.Prelude.{
  ℕ, zero, suc, ◌≤◌, ◌<◌, ◌≡◌, refl, sym, ◌∙◌, ap, List, [], ◌∷◌, ◌++◌, none, some, ok, Exec, pure,
  ◌>>=◌, ◌>>◌, length, All, arith,
}
use meta_text.Io.{IoError, ByteReader, ByteWriter, HealthyReader, HealthyWriter}
use meta_text.Ipc.Framing.{encode, max_frame_len, read_frame, write_frame}
use meta_text.Ipc.Framing.Read.{read_frame-encode}
use meta_text.Ipc.Framing.Write.{written-write_frame}
use meta_text.Ipc.Framing.Verdict.{read_frame-verdict}

abbrev pub IsPayload : List ℕ → Type 0
IsPayload payload = (0 < length payload) × (length payload ≤ max_frame_len)

-- `write_frame` for each payload in turn, up to the first error.
pub write_frames : (io : ByteWriter) → List (List ℕ) → Exec IoError io.Writer (Unit {0})
write_frames io [] = pure tt
write_frames io (p ∷ ps) = write_frame io p >> write_frames io ps

-- `read_frame` until the stream ends, at most `fuel` times.
pub read_frames : (io : ByteReader) → ℕ → Exec IoError io.Reader (List (List ℕ))
read_frames io zero = pure []
read_frames io (suc fuel) = do
  frame ← read_frame io
  elim frame [ none ↦ pure [] | some p ↦ do rest ← read_frames io fuel; pure (p ∷ rest) ]

abbrev pub encodes : List (List ℕ) → List ℕ
encodes [] = []
encodes (p ∷ ps) = encode p ++ encodes ps

module _ (io : ByteWriter) (healthy : HealthyWriter io) where
  pub written-write_frames :
      (ps : List (List ℕ)) (w : io.Writer)
      → All IsPayload ps
      → ((write_frames io ps w).0 ≡ ok tt)
        × (io.written (write_frames io ps w).1 ≡ io.written w ++ encodes ps)
  unfolding write_frames
  written-write_frames [] w fit = (refl, sym (append-nil (io.written w)))
  written-write_frames (p ∷ ps) w (fit, fits) =
      let one = written-write_frame io healthy p w fit.0 fit.1 in
      let w' = (write_frame io p w).1 in
      let later = written-write_frames ps w' fits in
      ground (arith, one, later, append_assoc (io.written w) (encode p) (encodes ps))

module _ (io : ByteReader) (healthy : HealthyReader io) where
  pub read_frames-encodes :
      (ps : List (List ℕ)) (r : io.Reader)
      → All IsPayload ps
      → io.contents r ≡ encodes ps
      → (read_frames io (suc (length ps)) r).0 ≡ ok ps
  unfolding read_frames
  read_frames-encodes [] r fit starts =
      let ends = read_frame-verdict io healthy r in ground (arith, ends)
  read_frames-encodes (p ∷ ps) r (fit, fits) starts =
      let one = read_frame-encode io healthy p (encodes ps) r fit.0 fit.1 starts in
      let later = read_frames-encodes ps (read_frame io r).1 fits one.1 in
      ground (arith, one, later)

module _ (out : ByteWriter) (inp : ByteReader) (out_healthy : HealthyWriter out)
    (inp_healthy : HealthyReader inp) where
  -- Whatever payloads within the bounds are written to a fresh stream, a peer that reads what was
  -- written until the end of the stream gets the same payloads, in order.
  pub read_frames-write_frames :
      (ps : List (List ℕ)) (w : out.Writer) (r : inp.Reader)
      → All IsPayload ps
      → out.written w ≡ []
      → inp.contents r ≡ out.written (write_frames out ps w).1
      → ((write_frames out ps w).0 ≡ ok tt) × ((read_frames inp (suc (length ps)) r).0 ≡ ok ps)
  read_frames-write_frames ps w r fit fresh sent =
      let wrote = written-write_frames out out_healthy ps w fit in
      (
        wrote.0,
        read_frames-encodes inp inp_healthy ps r fit
            (sent ∙ wrote.1 ∙ ap (λ t. t ++ encodes ps) fresh),
      )
