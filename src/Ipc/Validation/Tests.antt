-- ===== src/Ipc/Validation/Tests.antt =====
-- The validators of crates/meta-text-proto/src/ipc/validation.rs on concrete values.
use meta_text.Prelude.{◌↔◌, ◌<◌, ◌≡◌, refl, [], ◌∷◌, some, none, ok, length}
use meta_text.Prelude.Text.{codes, trim, is_whitespace, is_control, utf8_len}
use meta_text.Hex.Digits.{digits}
use meta_text.Ipc.Protocol.{contains_forbidden_control, max_nickname_len}
use meta_text.Ipc.Validation.{nickname, peer_label, identifier, binary}
use meta_text.Ipc.Validation.Labels.{IsLabel, peer_label_iff}

nickname_trims : nickname (codes "  Alice ") ≡ ok (codes "Alice")
unfolding nickname trim is_whitespace is_control contains_forbidden_control
nickname_trims = refl

escape_refused : peer_label (codes "Mallory") ≡ some (codes "Mallory")
unfolding peer_label nickname trim is_whitespace is_control contains_forbidden_control
escape_refused = refl

terminal_command_refused : peer_label (77 ∷ 27 ∷ 91 ∷ []) ≡ none
unfolding peer_label nickname trim is_whitespace is_control contains_forbidden_control
terminal_command_refused = refl

identifier_kept : identifier (codes "did:peer:1 ") ≡ ok (codes "did:peer:1")
unfolding identifier trim is_whitespace is_control contains_forbidden_control
identifier_kept = refl

peer_label_iff_example :
    ((peer_label (codes " Mallory") ≡ some (codes "Mallory"))
      ↔ (nickname (codes " Mallory") ≡ ok (codes "Mallory")))
    × ((peer_label (codes " Mallory") ≡ some (codes "Mallory")) ↔ (
        (codes "Mallory" ≡ trim (codes " Mallory"))
        × (0 < length (codes "Mallory"))
        × IsLabel max_nickname_len (codes "Mallory")))
peer_label_iff_example = peer_label_iff (codes " Mallory") (codes "Mallory")

binary_decodes : binary digits (codes " 00ff10") 8 ≡ ok (0 ∷ 255 ∷ 16 ∷ [])
unfolding binary digits trim is_whitespace utf8_len
binary_decodes = refl
