-- ===== src/Ipc/Validation/Labels.antt =====
-- What the label validators accept, for crates/meta-text-proto/src/ipc/validation.rs.
use meta_text.Prelude.{
  ℕ, ◌≤◌, ◌<◌, ◌≡◌, ◌↔◌, refl, sym, ap, false, List, [], ◌∷◌, some, Result, ok, err, any, length,
  arith,
}
use meta_text.Prelude.Text.{Text, is_empty, is_whitespace, trim}
use meta_text.Prelude.Text.Trim.{trim-trim}
use meta_text.Ipc.Protocol.{
  contains_forbidden_control, max_nickname_len, max_status_len, max_identifier_len,
}
use meta_text.Ipc.Validation.{
  nickname, peer_label, status, identifier, group_name, max_group_name_len, accepted,
}

-- A label that is safe to print: trimmed, within the limit, and free of control characters.
pub record IsLabel (limit : ℕ) (s : Text) : Type 0 where
  pub trimmed : trim s ≡ s
  pub fits : length s ≤ limit
  pub printable : contains_forbidden_control s [] ≡ false

pub is_empty-length {ℓ} : {A : Type ℓ} (s : List A) → is_empty s ≡ false → 0 < length s
is_empty-length [] h = cc
is_empty-length (c ∷ s) h = omega arith

pub length-is_empty {ℓ} : {A : Type ℓ} (s : List A) → 0 < length s → is_empty s ≡ false
length-is_empty [] h = absurd (omega arith)
length-is_empty (c ∷ s) h = refl

-- A nickname is accepted exactly when its trimmed form is a non-empty label, and that form is kept.
pub nickname_iff :
    (value s : Text)
    → (nickname value ≡ ok s) ↔ ((s ≡ trim value) × (0 < length s) × IsLabel max_nickname_len s)
unfolding nickname
nickname_iff value s = (
  λ h. ground (arith, h, trim-trim value, is_empty-length (trim value)),
  λ k. let e = k.0 in ground (arith, length-is_empty (trim value)),
)

-- A status message: the same rule, and an empty one is accepted.
pub status_iff :
    (value s : Text) → (status value ≡ ok s) ↔ ((s ≡ trim value) × IsLabel max_status_len s)
unfolding status
status_iff value s = (λ h. ground (arith, h, trim-trim value), λ k. ground arith)

-- A group name: the same rule, and an empty one is accepted.
pub group_name_iff :
    (value s : Text) → (group_name value ≡ ok s) ↔ ((s ≡ trim value) × IsLabel max_group_name_len s)
unfolding group_name
group_name_iff value s = (λ h. ground (arith, h, trim-trim value), λ k. ground arith)

-- An identifier is accepted exactly when its trimmed form is a non-empty label with no white space
-- anywhere, and that form is kept.
pub identifier_iff :
    (value s : Text)
    → (identifier value ≡ ok s) ↔ (
        (s ≡ trim value)
        × (0 < length s)
        × (any is_whitespace s ≡ false)
        × IsLabel max_identifier_len s)
unfolding identifier
identifier_iff value s = (
  λ h. ground (arith, h, trim-trim value, is_empty-length (trim value)),
  λ k. ground (arith, length-is_empty (trim value)),
)

-- What was accepted as an identifier is accepted again, unchanged.
pub identifier_idem : (value s : Text) → identifier value ≡ ok s → identifier s ≡ ok s
identifier_idem value s h =
    let (e, pos, plain, label) = (identifier_iff value s).0 h in
    (identifier_iff s s).1 (sym label.trimmed, pos, plain, label)

pub nickname_idem : (value s : Text) → nickname value ≡ ok s → nickname s ≡ ok s
nickname_idem value s h =
    let (e, pos, label) = (nickname_iff value s).0 h in
    (nickname_iff s s).1 (sym label.trimmed, pos, label)

pub accepted-eq-some {ℓ} : {E A : Type ℓ} (r : Result E A) {a : A} → accepted r ≡ some a → r ≡ ok a
accepted-eq-some (ok a) h = cc
accepted-eq-some (err e) h = cc

-- What a peer's label is shown as is exactly what a nickname of one's own would be kept as, and that is
-- exactly what the peer sent without the surrounding white space, where it is not empty, has at most 64
-- characters, and holds no control character; anything else is not shown.
pub peer_label_iff :
    (value s : Text)
    → ((peer_label value ≡ some s) ↔ (nickname value ≡ ok s))
      × ((peer_label value ≡ some s)
          ↔ ((s ≡ trim value) × (0 < length s) × IsLabel max_nickname_len s))
unfolding peer_label
peer_label_iff value s =
    let (sound, complete) = nickname_iff value s in
    (
      (accepted-eq-some (nickname value), ap accepted),
      (λ h. sound (accepted-eq-some (nickname value) h), λ k. ap accepted (complete k)),
    )

-- A label that is shown is taken in again unchanged.
pub peer_label-IsLabel :
    (value s : Text)
    → peer_label value ≡ some s
    → (s ≡ trim value) × (0 < length s) × IsLabel max_nickname_len s × (peer_label s ≡ some s)
unfolding peer_label
peer_label-IsLabel value s h =
    let kept : nickname value ≡ ok s = accepted-eq-some (nickname value) h in
    let (e, pos, label) = (nickname_iff value s).0 kept in
    (e, pos, label, ap accepted (nickname_idem value s kept))
