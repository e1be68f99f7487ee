-- ===== src/Tui/Commands.antt =====
-- The parser of crates/meta-text-tui/src/commands.rs. `to_lowercase` of the standard library is the
-- parameter `lower`.
pub mod Lines
pub mod Spelled
mod Tests
use meta_text.Prelude.{
  ℕ, Bool, true, false, List, [], ◌∷◌, ◌++◌, Option, none, some, any, ◌==◌, if◌then◌else◌,
}
use meta_text.Prelude.Text.{
  Text, codes, is_empty, is_whitespace, trim, trim_start, to_ascii_lowercase, text_eq, parse_usize,
}

pub data Command : Type 0 where
  help : Option Text → Command
  readme info list peers stats metrics : Command
  history : Option ℕ → Command
  clear : Command
  nick status : Text → Command
  -- the identifier and the note
  add : Text → Option Text → Command
  chat connect reject accept : Text → Command
  requests : Command
  message action binary : Text → Command
  -- the subcommand and the arguments
  group : Text → Text → Command
  whoami version uptime save : Command
  -- the target and the text
  msg : Text → Text → Command
  remove : Text → Command
  quit : Command
  unknown : Text → Command

-- `splitn(2, char::is_whitespace)`: the part before the first white space, and what follows it
pub split_word : Text → Text × Option Text
split_word [] = ([], none)
split_word (c ∷ s) =
    let (head, tail) = split_word s in if is_whitespace c then ([], some s) else (c ∷ head, tail)

abbrev pub or_empty : Option Text → Text
or_empty none = []
or_empty (some s) = s

abbrev non_empty : Text → Option Text
non_empty s = if is_empty s then none else some s

abbrev is_one_of : Text → List Text → Bool
is_one_of name names = any (text_eq name) names

pub add_command : Text × Option Text → Command
add_command (identifier, none) = add (trim identifier) none
add_command (identifier, some note) = add (trim identifier) (non_empty (trim note))

pub group_command : (Text → Text) → Text × Option Text → Command
group_command lower (subcommand, arguments) = group (lower subcommand) (trim (or_empty arguments))

pub msg_command : Text × Option Text → Command
msg_command (target, text) = msg (trim target) (trim (or_empty text))

-- the `match` on the name
pub command_of : (Text → Text) → Text → Text → Command
unfolding split_word add_command group_command msg_command
command_of lower name args =
    let named = is_one_of name in
    if named (codes "help" ∷ codes "h" ∷ codes "?" ∷ [])
    then help (non_empty args)
    else if named (codes "readme" ∷ [])
    then readme
    else if named (codes "info" ∷ [])
    then info
    else if named (codes "list" ∷ codes "friends" ∷ [])
    then list
    else if named (codes "peers" ∷ codes "connections" ∷ [])
    then peers
    else if named (codes "stats" ∷ [])
    then stats
    else if named (codes "metrics" ∷ [])
    then metrics
    else if named (codes "history" ∷ codes "log" ∷ [])
    then history (parse_usize args)
    else if named (codes "clear" ∷ codes "cls" ∷ [])
    then clear
    else if named (codes "quit" ∷ codes "exit" ∷ codes "q" ∷ [])
    then quit
    else if named (codes "nick" ∷ codes "nickname" ∷ [])
    then nick args
    else if named (codes "status" ∷ [])
    then status args
    else if named (codes "whoami" ∷ [])
    then whoami
    else if named (codes "version" ∷ codes "ver" ∷ [])
    then version
    else if named (codes "uptime" ∷ [])
    then uptime
    else if named (codes "save" ∷ [])
    then save
    else if named (codes "msg" ∷ codes "send" ∷ [])
    then msg_command (split_word args)
    else if named (codes "remove" ∷ codes "rm" ∷ codes "del" ∷ [])
    then remove args
    else if named (codes "add" ∷ [])
    then add_command (split_word args)
    else if named (codes "chat" ∷ codes "to" ∷ [])
    then chat args
    else if named (codes "connect" ∷ codes "join" ∷ [])
    then connect args
    else if named (codes "accept" ∷ [])
    then accept args
    else if named (codes "reject" ∷ codes "decline" ∷ [])
    then reject args
    else if named (codes "requests" ∷ codes "pending" ∷ [])
    then requests
    else if named (codes "me" ∷ codes "action" ∷ codes "emote" ∷ [])
    then action args
    else if named (codes "bin" ∷ codes "binary" ∷ codes "hex" ∷ [])
    then binary args
    else if named (codes "group" ∷ codes "groups" ∷ codes "g" ∷ [])
    then group_command lower (split_word args)
    else unknown name

-- what follows the slash
pub parse_body : (Text → Text) → Text × Option Text → Command
unfolding command_of
parse_body lower (name, args) = command_of lower (to_ascii_lowercase name) (trim (or_empty args))

pub parse_trimmed : (Text → Text) → Text → Command
unfolding parse_body
parse_trimmed lower [] = message []
parse_trimmed lower (c ∷ rest) =
    if c == b'/' then parse_body lower (split_word (trim_start rest)) else message (c ∷ rest)

pub parse : (Text → Text) → Text → Command
unfolding parse_trimmed
parse lower line = parse_trimmed lower (trim line)
