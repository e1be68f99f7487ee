-- ===== src/Tui/Commands/Tests.antt =====
-- The parser of crates/meta-text-tui/src/commands.rs on concrete lines.
use meta_text.Prelude.{◌≡◌, refl, some}
use meta_text.Prelude.Text.{Text, codes, trim, is_whitespace, to_ascii_lowercase, text_eq}
use meta_text.Tui.Commands.{parse, message, nick, add}
use meta_text.Tui.Commands.Spelled.{spelled, parse-spelled}

-- ASCII case stands for the Unicode tables here.
abbrev lower : Text → Text
lower = to_ascii_lowercase

nick_line : parse lower (codes " /Nick Alice ") ≡ nick (codes "Alice")
unfolding parse trim is_whitespace to_ascii_lowercase text_eq
nick_line = refl

plain_line : parse lower (codes " hello ") ≡ message (codes "hello")
unfolding parse trim is_whitespace
plain_line = refl

word_clean : trim (codes "hi there") ≡ codes "hi there"
unfolding trim is_whitespace
word_clean = refl

parse-spelled_example :
    parse lower (spelled (add (codes "bob") (some (codes "hi there"))))
    ≡ add (codes "bob") (some (codes "hi there"))
unfolding is_whitespace
parse-spelled_example =
    parse-spelled lower (add (codes "bob") (some (codes "hi there")))
      ((refl, refl), (word_clean, refl))
