-- ===== src/Tui/Commands/Lines.antt =====
-- What a line is parsed to.
use meta_text.Prelude.{
  ℕ, ◌≡◌, refl, sym, ap, ◌∙◌, true, false, [], ◌∷◌, ◌++◌, some, any, append_cons, arith, ok,
}
use meta_text.Prelude.Text.{
  Text, codes, is_empty, is_whitespace, trim, trim_start, to_ascii_lowercase, text_eq,
}
use meta_text.Prelude.Text.Trim.{trim_id, trim-append, trim_start_id, is_empty-append, StartsClean}
use meta_text.Ipc.Validation.{identifier}
use meta_text.Ipc.Validation.Labels.{identifier_iff, length-is_empty}
use meta_text.Tui.Commands.{
  msg, split_word, msg_command, command_of, parse_body, parse_trimmed, parse,
}

-- The first word of a text, where a white space follows it.
pub split_word-word :
    (name : Text) (w : ℕ) (rest : Text)
    → any is_whitespace name ≡ false
    → is_whitespace w ≡ true
    → split_word (name ++ w ∷ rest) ≡ (name, some rest)
unfolding split_word
split_word-word [] w rest e space = ground (arith, space)
split_word-word (c ∷ name) w rest e space =
    let later = split_word-word name w rest (ground (arith, e)) space in ground (arith, e, later)

word-StartsClean :
    (name : Text) (w : ℕ) (args : Text)
    → any is_whitespace name ≡ false
    → is_empty name ≡ false
    → StartsClean (name ++ w ∷ args)
word-StartsClean [] w args e named = ground (arith, named)
word-StartsClean (c ∷ name) w args e named = ground (arith, e)

slash : is_whitespace b'/' ≡ false
unfolding is_whitespace
slash = refl

-- A line of a slash, a name without white space, one white space and trimmed arguments, neither empty, is
-- the command that the name in lower case stands for, with those arguments.
pub parse_line :
    (lower : Text → Text) (name : Text) (w : ℕ) (args : Text)
    → any is_whitespace name ≡ false
    → is_empty name ≡ false
    → is_whitespace w ≡ true
    → trim args ≡ args
    → is_empty args ≡ false
    → parse lower (b'/' ∷ name ++ w ∷ args) ≡ command_of lower (to_ascii_lowercase name) args
unfolding parse parse_trimmed parse_body
parse_line lower name w args word named space clean solid =
    let line = b'/' ∷ name ++ w ∷ args in
    let whole : line ≡ b'/' ∷ (name ++ w ∷ []) ++ args =
      ap (λ t. b'/' ∷ t) (sym (append_cons name w args)) in
    let trimmed : trim line ≡ line =
      ap trim whole ∙ trim-append b'/' (name ++ w ∷ []) args slash clean solid ∙ sym whole in
    let start : trim_start (name ++ w ∷ args) ≡ name ++ w ∷ args =
      trim_start_id (name ++ w ∷ args) (word-StartsClean name w args word named) in
    ap (parse_trimmed lower) trimmed
    ∙ ap (λ t. parse_body lower (split_word t)) start
    ∙ ap (parse_body lower) (split_word-word name w args word space)
    ∙ ap (command_of lower (to_ascii_lowercase name)) clean

blank : is_whitespace b' ' ≡ true
unfolding is_whitespace
blank = refl

msg_name : any is_whitespace (codes "msg") ≡ false
unfolding is_whitespace
msg_name = refl

-- A word, a white space and a trimmed text are trimmed together.
pub word-trim :
    (word : Text) (w : ℕ) (text : Text)
    → any is_whitespace word ≡ false
    → is_empty word ≡ false
    → trim text ≡ text
    → is_empty text ≡ false
    → trim (word ++ w ∷ text) ≡ word ++ w ∷ text
word-trim [] w text e named clean solid = ground (arith, named)
word-trim (c ∷ word) w text e named clean solid =
    let whole : c ∷ word ++ w ∷ text ≡ c ∷ (word ++ w ∷ []) ++ text =
      ap (λ t. c ∷ t) (sym (append_cons word w text)) in
    ap trim whole ∙ trim-append c (word ++ w ∷ []) text (ground (arith, e)) clean solid ∙ sym whole

-- What the validator accepts as an identifier can be addressed: `/msg`, the identifier and a trimmed text
-- that is not empty, with single spaces, is the message of that text to that identifier.
pub parse-identifier :
    (lower : Text → Text) (value id text : Text)
    → identifier value ≡ ok id
    → trim text ≡ text
    → is_empty text ≡ false
    → parse lower (codes "/msg " ++ id ++ b' ' ∷ text) ≡ msg id text
unfolding command_of msg_command text_eq to_ascii_lowercase
parse-identifier lower value id text valid clean solid =
    let (same, long, word, label) = (identifier_iff value id).0 valid in
    let args = id ++ b' ' ∷ text in
    let trimmed = word-trim id b' ' text word (length-is_empty id long) clean solid in
    parse_line lower (codes "msg") b' ' args msg_name refl blank trimmed
      (is_empty-append id (b' ' ∷ text) refl)
    ∙ ap msg_command (split_word-word id b' ' text word blank)
    ∙ ap (λ t. msg t (trim text)) (trim_id id word)
    ∙ ap (msg id) clean
