-- ===== src/CommandLine.antt =====
-- What a start of the program does: src/main.rs.
use mini_mask.Common.{
  List, [], ◌∷◌, ◌++◌, Option, none, some, Bool, true, false, ◌&&◌, ◌||◌, not, Text, text, ok, err,
  if◌then◌else◌,
}
use mini_mask.Util.{hash_password}
use mini_mask.Disk.{write}
use mini_mask.Config.Load.{Toml}
use mini_mask.State.{Deps}
use mini_mask.Tls.{Rcgen, Rustls, gen_self_signed_cert, names_or_local}
use mini_mask.Client.Events.{ClientArgs}
use mini_mask.Startup.Run.{Boot, ◌>>=◌, ◌>>◌, give, reading, Surroundings, Server, run}

pub data Commands : Type 0 where
  server : (config : Text) → Commands
  client : ClientArgs → Commands
  gui : Commands
  hash_password_of : (password : Text) → Commands
  gen_cert : (out_cert out_key : Text) → (san : List Text) → Commands

pub record Cli : Type 0 where
  pub command : Option Commands
  pub gui : Bool

abbrev pub is_gui : Option Commands → Bool
is_gui (some gui) = true
is_gui _ = false

abbrev pub is_none : Option Commands → Bool
is_none none = true
is_none (some _) = false

abbrev pub or_server : Option Commands → Commands
or_server none = server (text "config.toml")
or_server (some c) = c

-- None is the window; `from_terminal` is true but for a double click on Windows.
unfoldable pub choose : (from_terminal : Bool) → Cli → Option Commands
choose from_terminal cli =
    let explicit_gui = cli.gui || is_gui cli.command in
    let auto_gui = is_none cli.command && not cli.gui && not from_terminal in
    if explicit_gui || auto_gui then none else some (or_server cli.command)

-- What a command comes to: a server that serves, a client that runs, the window, or printed lines.
pub data Outcome : Type 0 where
  serves : Server → Outcome
  connects : ClientArgs → Outcome
  window : Outcome
  prints : List Text → Outcome

abbrev pub write_to : (path bytes : Text) → Boot (Unit {0})
write_to path bytes d =
    let (written, d') = write path bytes d in
    (if written then ok tt else err (text "write " ++ path), d')

module _ {Key Cert : Type 0} (deps : Deps) (toml : Toml) (rcgen : Rcgen Key Cert) (rustls : Rustls)
    (w : Surroundings) where
  unfoldable pub run_command : Commands → Boot Outcome
  run_command (server config) = do
    started ← run deps toml rcgen rustls w config
    give (serves started)
  run_command (client args) = give (connects args)
  run_command gui = give window
  run_command (hash_password_of password) = do
    hash ← reading (λ d. hash_password deps.crates password w.salt)
    give (prints (hash ∷ []))
  run_command (gen_cert out_cert out_key san) = do
    made ← reading (λ d. gen_self_signed_cert rcgen (names_or_local san) w.key_random)
    write_to out_cert made.0
    write_to out_key made.1
    give (prints ((text "certificate -> " ++ out_cert) ∷ (text "key         -> " ++ out_key) ∷ []))
