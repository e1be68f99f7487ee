-- ===== src/Net/Frame/Tests.antt =====
-- The frames of crates/meta-text-backend/src/network.rs on concrete streams.
use meta_text.Prelude.{ℕ, List, [], ◌∷◌}
use meta_text.Net.Frame.{action, binary, encode_message_frame}

abbrev wave : List ℕ
wave = encode_message_frame 41 (119 ∷ 97 ∷ []) action binary
