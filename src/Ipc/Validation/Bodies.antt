-- ===== src/Ipc/Validation/Bodies.antt =====
-- What the validators of bodies accept, for crates/meta-text-proto/src/ipc/validation.rs.
use meta_text.Prelude.{
  ℕ, ◌*◌, ◌≤◌, ◌<◌, ◌≡◌, ◌≢◌, ◌↔◌, refl, false, List, [], ◌∷◌, some, ok, length, arith, All,
}
use meta_text.Prelude.Text.{Text, trim, utf8_len}
use meta_text.Prelude.Text.Trim.{trim-trim, trim_id}
use meta_text.Prelude.Bytes.{IsByte}
use meta_text.Ipc.Protocol.{contains_forbidden_control, allowed_message_controls, max_note_len}
use meta_text.Ipc.Validation.{note, message, binary}
use meta_text.Hex.{Hex, HexLaws}
use meta_text.Ipc.Validation.Labels.{IsLabel, is_empty-length, length-is_empty}

-- A note is dropped when it is blank, and kept as a label otherwise.
pub note_iff :
    (value s : Text)
    → (note (some value) ≡ ok (some s))
      ↔ ((s ≡ trim value) × (0 < length s) × IsLabel max_note_len s)
unfolding note
note_iff value s = (
  λ h. ground (arith, h, trim-trim value, is_empty-length (trim value)),
  λ k. ground (arith, length-is_empty (trim value)),
)

-- A message body is accepted exactly when it is not blank, is within the configured number of
-- characters, and has no control character but the newline and the tab; it is never altered.
pub message_iff :
    (value body : Text) (max_length : ℕ)
    → (message value max_length ≡ ok body) ↔ (
        (body ≡ value)
        × (trim value ≢ [])
        × (length value ≤ max_length)
        × (contains_forbidden_control value allowed_message_controls ≡ false))
unfolding message
message_iff value body max_length = (λ h. ground (arith, h), λ k. ground (arith, k))

utf8_len_ascii : (s : Text) → All (λ c. c < 128) s → utf8_len s ≡ length s
unfolding utf8_len
utf8_len_ascii [] h = refl
utf8_len_ascii (c ∷ s) (h, hs) = ground (arith, utf8_len_ascii s hs)

module _ (hex : Hex) (laws : HexLaws hex) where
  -- A body of bytes within the limit, carried in hexadecimal, is decoded to the same bytes.
  pub binary-encode :
      (bs : List ℕ) (max_length : ℕ)
      → All IsByte bs
      → 0 < length bs
      → length bs ≤ max_length
      → binary hex (hex.encode bs) max_length ≡ ok bs
  unfolding binary
  binary-encode bs max_length bytes pos fits =
      let s = hex.encode bs in
      let same = trim_id s (laws.encode_no_space bs) in
      let long = laws.length-encode bs in
      rw same (
        ground (
          arith,
          long,
          utf8_len_ascii s (laws.encode_ascii bs),
          length-is_empty s (omega (arith, long)),
          laws.decode-encode bs bytes,
        ))

  -- The limit holds of the decoded bytes: what is accepted has at least one byte and at most the
  -- limit, and its text had two digits for each.
  pub binary_sound :
      (value : Text) (max_length : ℕ) (bs : List ℕ)
      → binary hex value max_length ≡ ok bs
      → (0 < length bs) × (length bs ≤ max_length) × (length (trim value) ≡ 2 * length bs)
  unfolding binary
  binary_sound value max_length bs h =
      ground (arith, h, laws.length-decode (trim value) bs, is_empty-length (trim value))
