-- ===== src/Ipc/Framing.antt =====
-- crates/meta-text-proto/src/ipc/framing.rs: length-prefixed frames over a byte stream.
pub mod Write
pub mod Read
pub mod Verdict
pub mod Stream
pub mod Message
mod Tests
use meta_text.Prelude.{
  ℕ, zero, suc, ◌+◌, ◌*◌, ◌≤◌, ◌<◌, ◌≡◌, List, [], ◌∷◌, ◌++◌, Option, none, some, Result, ok, err,
  Exec, pure, raise, ◌>>=◌, ◌>>◌, length, take, drop, ltb, leb, ◌==◌, if◌then◌else◌,
}
use meta_text.Io.{
  IoError, empty_read, oversized_read, empty_write, oversized_write, malformed, unserializable,
  ByteReader, ByteWriter,
}
use meta_text.Prelude.Bytes.{to_be_bytes, from_be_bytes}

abbrev pub frame_header_len : ℕ
frame_header_len = 4

-- ipc/protocol.rs
abbrev pub max_frame_len : ℕ
max_frame_len = 1024 * 1024

-- The wire format of the module's documentation.
abbrev pub encode : List ℕ → List ℕ
encode payload = to_be_bytes frame_header_len (length payload) ++ payload

module _ (io : ByteReader) where
  open io use {Reader, read_one, read_exact}

  -- the checks of the declared length, and the body
  pub read_payload : ℕ → Exec IoError Reader (Option (List ℕ))
  read_payload declared =
      if declared == 0
      then raise empty_read
      else if ltb max_frame_len declared
      then raise (oversized_read declared)
      else do payload ← read_exact declared; pure (some payload)

  read_header : Option ℕ → Exec IoError Reader (Option (List ℕ))
  unfolding read_payload
  read_header none = pure none
  read_header (some first) = do rest ← read_exact 3; read_payload (from_be_bytes (first ∷ rest))

  pub read_frame : Exec IoError Reader (Option (List ℕ))
  unfolding read_header
  read_frame = do first ← read_one; read_header first

module _ (io : ByteWriter) where
  open io use {Writer, write_all, flush}

  pub write_frame : List ℕ → Exec IoError Writer (Unit {0})
  write_frame payload =
      if length payload == 0
      then raise empty_write
      else if ltb max_frame_len (length payload)
      then raise (oversized_write (length payload))
      else do write_all (to_be_bytes frame_header_len (length payload)); write_all payload; flush

-- serde_json, for the messages of type `M`.
pub record Json (M : Type 0) : Type 0 where
  pub to_vec : M → Option (List ℕ)
  pub from_slice : List ℕ → Option M

module _ {M : Type 0} (json : Json M) where
  parse_payload : {S : Type 0} → Option (List ℕ) → Exec IoError S (Option M)
  parse_payload none = pure none
  parse_payload (some bytes) = elim (json.from_slice bytes) [
    | none ↦ raise malformed
    | some message ↦ pure (some message)
  ]

  pub read_message : (io : ByteReader) → Exec IoError io.Reader (Option M)
  unfolding parse_payload
  read_message io = do bytes ← read_frame io; parse_payload bytes

  pub write_message : (io : ByteWriter) → M → Exec IoError io.Writer (Unit {0})
  write_message io message = elim (json.to_vec message) [
    | none ↦ raise unserializable
    | some bytes ↦ write_frame io bytes
  ]
