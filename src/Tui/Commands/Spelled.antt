-- ===== src/Tui/Commands/Spelled.antt =====
-- The command lines of crates/meta-text-tui/src/commands.rs as a user spells them.
use meta_text.Prelude.{◌≡◌, refl, ap, ◌∙◌, false, true, [], ◌∷◌, ◌++◌, none, some, any, ◌==◌, arith}
use meta_text.Prelude.Text.{
  Text, codes, is_empty, is_whitespace, trim, to_ascii_lowercase, text_eq, parse_usize,
}
use meta_text.Prelude.Text.Trim.{trim_id, is_empty-append}
use meta_text.Tui.Commands.{
  Command, help, readme, info, list, peers, stats, metrics, history, clear, nick, status, add, chat,
  connect, reject, accept, requests, message, action, binary, group, whoami, version, uptime, save,
  msg, remove, quit, unknown, split_word, add_command, group_command, msg_command, command_of,
  parse_trimmed, parse,
}
use meta_text.Tui.Commands.Lines.{parse_line, split_word-word, word-trim}

abbrev slashed : Text → Text → Text
slashed name args = b'/' ∷ name ++ b' ' ∷ args

-- The line for a command: a slash, the name, and the arguments after single spaces.
abbrev pub spelled : Command → Text
spelled (help none) = codes "/help"
spelled (help (some topic)) = slashed (codes "help") topic
spelled readme = codes "/readme"
spelled info = codes "/info"
spelled list = codes "/list"
spelled peers = codes "/peers"
spelled stats = codes "/stats"
spelled metrics = codes "/metrics"
spelled clear = codes "/clear"
spelled requests = codes "/requests"
spelled whoami = codes "/whoami"
spelled version = codes "/version"
spelled uptime = codes "/uptime"
spelled save = codes "/save"
spelled quit = codes "/quit"
spelled (history _) = codes "/history"
spelled (nick t) = slashed (codes "nick") t
spelled (status t) = slashed (codes "status") t
spelled (chat t) = slashed (codes "chat") t
spelled (connect t) = slashed (codes "connect") t
spelled (reject t) = slashed (codes "reject") t
spelled (accept t) = slashed (codes "accept") t
spelled (action t) = slashed (codes "me") t
spelled (binary t) = slashed (codes "binary") t
spelled (remove t) = slashed (codes "remove") t
spelled (add identifier none) = slashed (codes "add") identifier
spelled (add identifier (some note)) = slashed (codes "add") (identifier ++ b' ' ∷ note)
spelled (msg target text) = slashed (codes "msg") (target ++ b' ' ∷ text)
spelled (group subcommand []) = slashed (codes "group") subcommand
spelled (group subcommand (c ∷ arguments)) =
    slashed (codes "group") (subcommand ++ b' ' ∷ c ∷ arguments)
spelled (message text) = text
spelled (unknown name) = b'/' ∷ name

-- trimmed and not empty
abbrev pub IsArgument : Text → Type 0
IsArgument t = (trim t ≡ t) × (is_empty t ≡ false)

-- not empty, and without white space
abbrev pub IsWord : Text → Type 0
IsWord t = (any is_whitespace t ≡ false) × (is_empty t ≡ false)

abbrev HasNoSlash : Text → Type 0
HasNoSlash [] = Unit
HasNoSlash (c ∷ t) = (c == b'/') ≡ false

-- The arguments of a command can be told from its line.
abbrev pub IsSpellable : (Text → Text) → Command → Type 0
IsSpellable lower (help (some topic)) = IsArgument topic
IsSpellable lower (history (some n)) = ⊥
IsSpellable lower (nick t) = IsArgument t
IsSpellable lower (status t) = IsArgument t
IsSpellable lower (chat t) = IsArgument t
IsSpellable lower (connect t) = IsArgument t
IsSpellable lower (reject t) = IsArgument t
IsSpellable lower (accept t) = IsArgument t
IsSpellable lower (action t) = IsArgument t
IsSpellable lower (binary t) = IsArgument t
IsSpellable lower (remove t) = IsArgument t
IsSpellable lower (add identifier none) = IsWord identifier
IsSpellable lower (add identifier (some note)) = IsWord identifier × IsArgument note
IsSpellable lower (msg target text) = IsWord target × IsArgument text
IsSpellable lower (group subcommand []) = IsWord subcommand × (lower subcommand ≡ subcommand)
IsSpellable lower (group subcommand (c ∷ arguments)) =
    IsWord subcommand × (lower subcommand ≡ subcommand) × IsArgument (c ∷ arguments)
IsSpellable lower (message text) = (trim text ≡ text) × HasNoSlash text
IsSpellable lower (unknown name) = ⊥
IsSpellable lower (help none) = Unit
IsSpellable lower (history none) = Unit
IsSpellable lower readme = Unit
IsSpellable lower info = Unit
IsSpellable lower list = Unit
IsSpellable lower peers = Unit
IsSpellable lower stats = Unit
IsSpellable lower metrics = Unit
IsSpellable lower clear = Unit
IsSpellable lower requests = Unit
IsSpellable lower whoami = Unit
IsSpellable lower version = Unit
IsSpellable lower uptime = Unit
IsSpellable lower save = Unit
IsSpellable lower quit = Unit

blank : is_whitespace b' ' ≡ true
unfolding is_whitespace
blank = refl

-- A word without a white space after it.
split_word-alone : (name : Text) → any is_whitespace name ≡ false → split_word name ≡ (name, none)
unfolding split_word
split_word-alone [] e = refl
split_word-alone (c ∷ name) e = ground (arith, e, split_word-alone name (ground (arith, e)))

-- The line of a name and its arguments is what the name stands for.
parse-slashed :
    (lower : Text → Text) (name args : Text) (c : Command)
    → IsWord name
    → IsArgument args
    → command_of lower (to_ascii_lowercase name) args ≡ c
    → parse lower (slashed name args) ≡ c
parse-slashed lower name args c (word, named) (clean, solid) e =
    parse_line lower name b' ' args word named blank clean solid ∙ e

word-IsArgument : (t : Text) → IsWord t → IsArgument t
word-IsArgument t (word, named) = (trim_id t word, named)

pair-IsArgument : (t u : Text) → IsWord t → IsArgument u → IsArgument (t ++ b' ' ∷ u)
pair-IsArgument t u (word, named) (clean, solid) =
    (word-trim t b' ' u word named clean solid, is_empty-append t (b' ' ∷ u) refl)

add_alone :
    (identifier : Text)
    → IsWord identifier
    → add_command (split_word identifier) ≡ add identifier none
unfolding add_command
add_alone identifier (word, named) =
    ap add_command (split_word-alone identifier word)
    ∙ ap (λ t. add t none) (trim_id identifier word)

add_noted :
    (identifier note : Text)
    → IsWord identifier
    → IsArgument note
    → add_command (split_word (identifier ++ b' ' ∷ note)) ≡ add identifier (some note)
unfolding add_command
add_noted identifier note (word, named) (clean, solid) =
    ap add_command (split_word-word identifier b' ' note word blank)
    ∙ rw (trim_id identifier word, clean, solid) refl

msg_pair :
    (target text : Text)
    → IsWord target
    → IsArgument text
    → msg_command (split_word (target ++ b' ' ∷ text)) ≡ msg target text
unfolding msg_command
msg_pair target text (word, named) (clean, solid) =
    ap msg_command (split_word-word target b' ' text word blank)
    ∙ rw (trim_id target word, clean) refl

group_alone :
    (lower : Text → Text) (subcommand : Text)
    → IsWord subcommand
    → lower subcommand ≡ subcommand
    → group_command lower (split_word subcommand) ≡ group subcommand []
unfolding group_command trim
group_alone lower subcommand (word, named) e =
    ap (group_command lower) (split_word-alone subcommand word) ∙ ap (λ t. group t []) e

group_pair :
    (lower : Text → Text) (subcommand arguments : Text)
    → IsWord subcommand
    → lower subcommand ≡ subcommand
    → IsArgument arguments
    → group_command lower (split_word (subcommand ++ b' ' ∷ arguments)) ≡ group subcommand arguments
unfolding group_command
group_pair lower subcommand arguments (word, named) e (clean, solid) =
    ap (group_command lower) (split_word-word subcommand b' ' arguments word blank)
    ∙ rw (e, clean) refl

parse-message :
    (lower : Text → Text) (text : Text)
    → trim text ≡ text
    → HasNoSlash text
    → parse lower text ≡ message text
unfolding parse parse_trimmed
parse-message lower [] clean plain = ap (parse_trimmed lower) clean
parse-message lower (c ∷ text) clean plain =
    ap (parse_trimmed lower) clean ∙ rw (parse_trimmed, plain) refl

-- Whatever command is spelled as a user types it, in lower case and with single spaces, is parsed to that
-- command: every command of the interface but a history with a count and an unknown name, where its
-- arguments are trimmed and not empty, an identifier, a target and a subcommand hold no white space, a
-- subcommand is in lower case, and a message does not start with a slash.
pub parse-spelled :
    (lower : Text → Text) (c : Command) → IsSpellable lower c → parse lower (spelled c) ≡ c
unfolding parse command_of text_eq to_ascii_lowercase is_whitespace trim parse_usize
parse-spelled lower (help none) s = refl
parse-spelled lower (help (some topic)) s =
    parse-slashed lower (codes "help") topic (help (some topic)) (refl, refl) s (rw (s.1) refl)
parse-spelled lower (history none) s = refl
parse-spelled lower (history (some n)) s = absurd s
parse-spelled lower readme s = refl
parse-spelled lower info s = refl
parse-spelled lower list s = refl
parse-spelled lower peers s = refl
parse-spelled lower stats s = refl
parse-spelled lower metrics s = refl
parse-spelled lower clear s = refl
parse-spelled lower requests s = refl
parse-spelled lower whoami s = refl
parse-spelled lower version s = refl
parse-spelled lower uptime s = refl
parse-spelled lower save s = refl
parse-spelled lower quit s = refl
parse-spelled lower (nick t) s = parse-slashed lower (codes "nick") t (nick t) (refl, refl) s refl
parse-spelled lower (status t) s =
    parse-slashed lower (codes "status") t (status t) (refl, refl) s refl
parse-spelled lower (chat t) s = parse-slashed lower (codes "chat") t (chat t) (refl, refl) s refl
parse-spelled lower (connect t) s =
    parse-slashed lower (codes "connect") t (connect t) (refl, refl) s refl
parse-spelled lower (reject t) s =
    parse-slashed lower (codes "reject") t (reject t) (refl, refl) s refl
parse-spelled lower (accept t) s =
    parse-slashed lower (codes "accept") t (accept t) (refl, refl) s refl
parse-spelled lower (action t) s = parse-slashed lower (codes "me") t (action t) (refl, refl) s refl
parse-spelled lower (binary t) s =
    parse-slashed lower (codes "binary") t (binary t) (refl, refl) s refl
parse-spelled lower (remove t) s =
    parse-slashed lower (codes "remove") t (remove t) (refl, refl) s refl
parse-spelled lower (add identifier none) s =
    parse-slashed lower (codes "add") identifier (add identifier none) (refl, refl)
      (word-IsArgument identifier s) (add_alone identifier s)
parse-spelled lower (add identifier (some note)) (word, clean) =
    parse-slashed lower (codes "add") (identifier ++ b' ' ∷ note) (add identifier (some note))
      (refl, refl) (pair-IsArgument identifier note word clean)
      (add_noted identifier note word clean)
parse-spelled lower (msg target text) (word, clean) =
    parse-slashed lower (codes "msg") (target ++ b' ' ∷ text) (msg target text) (refl, refl)
      (pair-IsArgument target text word clean) (msg_pair target text word clean)
parse-spelled lower (group subcommand []) (word, e) =
    parse-slashed lower (codes "group") subcommand (group subcommand []) (refl, refl)
      (word-IsArgument subcommand word) (group_alone lower subcommand word e)
parse-spelled lower (group subcommand (c ∷ arguments)) (word, e, clean) =
    parse-slashed lower (codes "group") (subcommand ++ b' ' ∷ c ∷ arguments)
      (group subcommand (c ∷ arguments)) (refl, refl)
      (pair-IsArgument subcommand (c ∷ arguments) word clean)
      (group_pair lower subcommand (c ∷ arguments) word e clean)
parse-spelled lower (message text) (clean, plain) = parse-message lower text clean plain
parse-spelled lower (unknown name) s = absurd s
