-- ===== src/Ipc/Framing/Tests.antt =====
-- The framing of crates/meta-text-proto/src/ipc/framing.rs on concrete streams.
use meta_text.Prelude.{ℕ, ◌≡◌, refl, List, [], ◌∷◌, some, ok, arith}
use meta_text.Prelude.Bytes.{from_be_bytes}
use meta_text.Ipc.Framing.{read_frame}
use meta_text.Io.ListStream.{list_reader, list_writer, list_reader_healthy, list_writer_healthy}
use meta_text.Ipc.Framing.Verdict.{verdict, read_frame-verdict}
use meta_text.Ipc.Framing.Stream.{write_frames, read_frames, read_frames-write_frames}

abbrev two : List (List ℕ)
two = (123 ∷ 125 ∷ []) ∷ (91 ∷ []) ∷ []

abbrev wire : List ℕ
wire = 0 ∷ 0 ∷ 0 ∷ 2 ∷ 123 ∷ 125 ∷ 0 ∷ 0 ∷ 0 ∷ 1 ∷ 91 ∷ []

read_frame_two : (read_frame list_reader wire).0 ≡ ok (some (123 ∷ 125 ∷ []))
unfolding read_frame from_be_bytes
read_frame_two = refl

read_frames-write_frames_example :
    ((write_frames list_writer two []).0 ≡ ok tt)
    × ((read_frames list_reader 3 (write_frames list_writer two []).1).0 ≡ ok two)
read_frames-write_frames_example =
    read_frames-write_frames list_writer list_reader list_writer_healthy list_reader_healthy two []
      (write_frames list_writer two []).1 (omega arith) refl refl

read_frame-verdict_example : (read_frame list_reader wire).0 ≡ verdict wire
read_frame-verdict_example = read_frame-verdict list_reader list_reader_healthy wire
