-- ===== src/Net/Frame.antt =====
-- The frames of crates/meta-text-backend/src/network.rs, `[kind][u32 length][payload]`, and the
-- message frames inside them; the message attributes of crates/meta-text-proto/src/types.rs.
pub mod RoundTrip
mod Tests
use meta_text.Prelude.{
  ℕ, ◌+◌, ◌*◌, ◌-◌, ◌^◌, List, [], ◌∷◌, ◌++◌, Option, none, some, Result, ok, err, Exec, pure,
  raise, resume, ◌>>=◌, length, take, drop, ltb, ◌==◌, if◌then◌else◌,
}
use meta_text.Prelude.Bytes.{to_be_bytes, from_be_bytes}
use meta_text.Io.{IoError, unexpected_eof, oversized_read, ByteReader}

pub data MessageKind : Type 0 where
  text action : MessageKind

pub data ContentType : Type 0 where
  text binary : ContentType

abbrev pub frame_message : ℕ
frame_message = 2

abbrev pub frame_action : ℕ
frame_action = 4

abbrev pub frame_binary : ℕ
frame_binary = 5

abbrev pub message_id_len : ℕ
message_id_len = 8

abbrev pub max_frame_size : ℕ
max_frame_size = 64 * 1024

-- `u32::try_from(n).unwrap_or(u32::MAX)`
abbrev pub saturating_u32 : ℕ → ℕ
saturating_u32 n = if ltb n (2 ^ 32) then n else 2 ^ 32 - 1

pub encode_frame : ℕ → List ℕ → List ℕ
encode_frame kind payload = kind ∷ (to_be_bytes 4 (saturating_u32 (length payload)) ++ payload)

pub frame_kind : MessageKind → ContentType → ℕ
frame_kind MessageKind.text ContentType.text = frame_message
frame_kind action _ = frame_action
frame_kind MessageKind.text binary = frame_binary

pub encode_message_frame : ℕ → List ℕ → MessageKind → ContentType → List ℕ
encode_message_frame message_id ciphertext kind content_type =
    encode_frame (frame_kind kind content_type)
      (to_be_bytes message_id_len message_id ++ ciphertext)

pub message_attributes_of : ℕ → Option (MessageKind × ContentType)
message_attributes_of frame =
    if frame == frame_message
    then some (MessageKind.text, ContentType.text)
    else if frame == frame_action
    then some (action, ContentType.text)
    else if frame == frame_binary
    then some (MessageKind.text, binary)
    else none

pub decode_message_id : List ℕ → Option ℕ
decode_message_id payload =
    if ltb (length payload) message_id_len
    then none
    else some (from_be_bytes (take message_id_len payload))

-- `kind[0]` of the one-byte buffer
first_byte : List ℕ → ℕ
first_byte [] = 0
first_byte (b ∷ bs) = b

module _ (io : ByteReader) where
  open io use {Reader, read_exact}

  -- the length, the check before the allocation, and the payload
  pub read_body : ℕ → Exec IoError Reader (Option (ℕ × List ℕ))
  read_body kind = do
    prefix ← read_exact 4
    let declared = from_be_bytes prefix
    if ltb max_frame_size declared
        then raise (oversized_read declared)
        else do payload ← read_exact declared; pure (some (kind, payload))

  -- a stream that ends before the kind is a clean end
  read_kind : Result IoError (List ℕ) → Exec IoError Reader (Option (ℕ × List ℕ))
  unfolding read_body first_byte
  read_kind (ok kind) r = read_body (first_byte kind) r
  read_kind (err unexpected_eof) r = (ok none, r)
  read_kind (err e) r = (err e, r)

  pub read_frame : Exec IoError Reader (Option (ℕ × List ℕ))
  unfolding read_kind
  read_frame r = let (first, r') = read_exact 1 r in read_kind first r'
