-- ===== src/Gui/App.antt =====
-- `App` of src/gui.rs: the state, and what the buttons do.
use mini_mask.Common.{
  ℕ, suc, ◌+◌, ◌%◌, ◌^◌, List, [], ◌∷◌, ◌++◌, Option, none, some, Bool, true, false, Text, text,
  Result, ok, err, map, length, drop, leb, ◌==◌, if◌then◌else◌,
}
use mini_mask.Disk.{Disk}
use mini_mask.Client.Events.{
  ClientArgs, LogLevel, info, error, ClientEvent, log, state, ConnState, connecting, connected,
  reconnecting,
}
use mini_mask.Gui.Settings.{Settings, SettingsJson, load, save, validate, client_args}

abbrev pub max_log_lines : ℕ
max_log_lines = 2000

pub record LogLine : Type 0 where
  pub level : LogLevel
  pub time : Text
  pub message : Text

-- The runtime is left out: the client that it runs is one of `Desktop`'s. `events` is what the
-- client has sent and the window has not read.
pub record Running : Type 0 where
  pub cancel : ℕ
  pub events : List ClientEvent
  pub started_at : ℕ

pub record App : Type 0 where
  pub settings : Settings
  pub show_token : Bool
  pub state : Option ConnState
  pub running : Option Running
  pub logs : List LogLine
  pub auto_scroll : Bool
  pub reconnects : ℕ

-- A client that was started: the number of its cancel token, whether that is cancelled, and its
-- arguments.
pub record Spawned : Type 0 where
  pub token : ℕ
  pub cancelled : Bool
  pub args : ClientArgs

-- The application with what is around it: the disk, and all clients that it ever started.
pub record Desktop : Type 0 where
  pub app : App
  pub disk : Disk
  pub clients : List Spawned
  pub next_token : ℕ

unfoldable pub new_app : SettingsJson → Disk → App
new_app json d = record {
  settings = load json d;
  show_token = false;
  state = none;
  running = none;
  logs = [];
  auto_scroll = true;
  reconnects = 0;
}

abbrev pub is_running : App → Bool
is_running a = elim a.running [ none ↦ false | some _ ↦ true ]

-- `time` is what the clock says.
abbrev pub push_log : LogLevel → (message time : Text) → App → App
push_log level message time a = record a {
  logs =
      (if leb max_log_lines (length a.logs) then drop 1 a.logs else a.logs)
      ++ record { level = level; time = time; message = message } ∷ [];
}

abbrev pub say : LogLevel → (message time : Text) → Desktop → Desktop
say level message time g = record g { app = push_log level message time g.app }

-- `CancelToken::cancel` of every clone of a token.
abbrev pub cancel_one : ℕ → Spawned → Spawned
cancel_one token c = if c.token == token then record c { cancelled = true } else c

abbrev pub cancel : ℕ → Desktop → Desktop
cancel token g = record g { clients = map (cancel_one token) g.clients }

abbrev pub save_settings : SettingsJson → Desktop → Desktop
save_settings json g = record g { disk = save json g.app.settings g.disk }

-- The client is spawned with a token of its own.
abbrev pub spawn : (at : ℕ) → Desktop → Desktop
spawn at g = record g {
  app = record g.app {
    running = some (record { cancel = g.next_token; events = []; started_at = at });
    state = some connecting;
  };
  clients =
      record { token = g.next_token; cancelled = false; args = client_args g.app.settings }
      ∷ g.clients;
  next_token = suc g.next_token;
}

-- `built` is what becomes of the runtime.
abbrev pub launch : Result Text (Unit {0}) → (at : ℕ) → (time : Text) → Desktop → Desktop
launch (err e) at time g = say error (text "无法创建运行时：" ++ e) time g
launch (ok _) at time g = spawn at g

abbrev pub start_if :
    SettingsJson
    → Result Text (Unit {0})
    → Result Text (Unit {0})
    → (at : ℕ) → (time : Text) → Desktop
    → Desktop
start_if json (err e) built at time g = say error e time g
start_if json (ok _) built at time g =
    launch built at time (
      let saved = save_settings json g in
      record saved { app = record saved.app { reconnects = 0 } })

unfoldable pub start :
    SettingsJson → Result Text (Unit {0}) → (at : ℕ) → (time : Text) → Desktop → Desktop
start json built at time g =
    if is_running g.app then g else start_if json (validate g.app.settings) built at time g

-- The running client, if there is one, is cancelled and let go.
abbrev pub let_go : Option Running → Desktop → Desktop
let_go none g = g
let_go (some r) g = let c = cancel r.cancel g in record c { app = record c.app { running = none } }

unfoldable pub stop : (time : Text) → Desktop → Desktop
stop time g =
    let free = let_go g.app.running g in
    say info (text "已断开连接") time (record free { app = record free.app { state = none } })

abbrev pub apply_event : (time : Text) → ClientEvent → App → App
apply_event time (log level message) a = push_log level message time a
apply_event time (state connecting) a = record a { state = some connecting }
apply_event time (state connected) a = record a { state = some connected }
apply_event time (state reconnecting) a = record a {
  state = some reconnecting;
  reconnects = (a.reconnects + 1) % 2 ^ 32;
}

-- `clock n` is what the clock says at the event number `n`.
unfoldable pub apply_events : (clock : ℕ → Text) → List ClientEvent → App → App
apply_events clock [] a = a
apply_events clock (e ∷ es) a = apply_events (λ n. clock (suc n)) es (apply_event (clock 0) e a)

abbrev pub drained : Option Running → List ClientEvent
drained none = []
drained (some r) = r.events

abbrev pub emptied : Option Running → Option Running
emptied none = none
emptied (some r) = some (record r { events = [] })

unfoldable pub pump_events : (clock : ℕ → Text) → App → App
pump_events clock a =
    apply_events clock (drained a.running) (record a { running = emptied a.running })

unfoldable pub on_exit : SettingsJson → Desktop → Desktop
on_exit json g =
    let saved = save_settings json g in
    elim saved.app.running [ none ↦ saved | some r ↦ cancel r.cancel saved ]

-- What the client with a token sends comes to the window that holds the token, if there is one.
abbrev pub received : (token : ℕ) → ClientEvent → Option Running → Option Running
received token e none = none
received token e (some r) =
    if r.cancel == token then some (record r { events = r.events ++ e ∷ [] }) else some r
