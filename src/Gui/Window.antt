-- ===== src/Gui/Window.antt =====
-- One frame of the window of src/gui.rs: what is shown, and what the user does to it.
use mini_mask.Common.{
  ℕ, ◌-◌, ◌/◌, ◌%◌, [], ◌∷◌, ◌++◌, Option, none, some, Bool, true, not, ◌&&◌, Text, text, decimal,
  Result, ltb, if◌then◌else◌,
}
use mini_mask.Client.Events.{ConnState, info, connecting, connected, reconnecting}
use mini_mask.Gui.Settings.{Settings, SettingsJson}
use mini_mask.Gui.App.{App, Desktop, is_running, say, save_settings, start, stop, pump_events}

-- What the user does during a frame: the new text of a field that was typed in, and whether a button
-- or a box was clicked. The other fields are what the system answers: the clock at the events that
-- are read and at the two buttons, the runtime, and the instant of a start.
pub record Frame : Type 0 where
  pub server : Option Text
  pub id : Option Text
  pub token : Option Text
  pub server_name : Option Text
  pub ca_path : Option Text
  pub tls_clicked : Bool
  pub skip_clicked : Bool
  pub eye_clicked : Bool
  pub main_clicked : Bool
  pub save_clicked : Bool
  pub theme_clicked : Bool
  pub clear_clicked : Bool
  pub scroll_clicked : Bool
  pub clock : ℕ → Text
  pub main_time : Text
  pub save_time : Text
  pub built : Result Text (Unit {0})
  pub instant : ℕ

-- A field takes what is typed only if it is enabled, and a box flips only then.
abbrev typed : Bool → Option Text → Text → Text
typed enabled none old = old
typed enabled (some new) old = if enabled then new else old

abbrev flipped : (enabled clicked old : Bool) → Bool
flipped enabled clicked old = if enabled && clicked then not old else old

-- The grid of fields, in the order in which they stand: a field sees what those above it changed.
unfoldable pub cfg_grid : (running : Bool) → Frame → Settings → Settings
cfg_grid running f s =
    let free = not running in
    let tls = flipped free f.tls_clicked s.tls in
    record s {
      server = typed free f.server s.server;
      id = typed free f.id s.id;
      token = typed free f.token s.token;
      tls = tls;
      server_name = typed (free && tls) f.server_name s.server_name;
      ca_path = typed (free && tls && not s.insecure_skip_verify) f.ca_path s.ca_path;
      insecure_skip_verify = flipped (free && tls) f.skip_clicked s.insecure_skip_verify;
    }

abbrev pub toggle_theme : SettingsJson → Desktop → Desktop
toggle_theme json g = save_settings json (record g {
  app = record g.app {
    settings = record g.app.settings { dark_mode = not g.app.settings.dark_mode };
  };
})

unfoldable pub top_bar : SettingsJson → Frame → Desktop → Desktop
top_bar json f g = if f.theme_clicked then toggle_theme json g else g

-- The button is for a start if no client runs, and for a stop otherwise.
abbrev pub main_button : SettingsJson → (running : Bool) → Frame → Desktop → Desktop
main_button json running f g =
    if running
    then (if f.main_clicked then stop f.main_time g else g)
    else (if f.main_clicked then start json f.built f.instant f.main_time g else g)

abbrev pub save_button : SettingsJson → Frame → Desktop → Desktop
save_button json f g =
    if f.save_clicked then say info (text "配置已保存") f.save_time (save_settings json g) else g

abbrev pub edited : (running : Bool) → Frame → Desktop → Desktop
edited running f g = record g {
  app = record g.app {
    settings = cfg_grid running f g.app.settings;
    show_token = flipped true f.eye_clicked g.app.show_token;
  };
}

unfoldable pub config_card : SettingsJson → Frame → Desktop → Desktop
config_card json f g =
    let running = is_running g.app in
    save_button json f (main_button json running f (edited running f g))

unfoldable pub log_card : Frame → App → App
log_card f a = record a {
  logs = if f.clear_clicked then [] else a.logs;
  auto_scroll = flipped true f.scroll_clicked a.auto_scroll;
}

-- `update`, less what it draws.
unfoldable pub update : SettingsJson → Frame → Desktop → Desktop
update json f g =
    let read = record g { app = pump_events f.clock g.app } in
    let done = config_card json f (top_bar json f read) in record done { app = log_card f done.app }

-- The line of `status_card`.
abbrev shown_state : Option ConnState → Text
shown_state none = text "● 启动中"
shown_state (some connecting) = text "● 连接中"
shown_state (some connected) = text "● 已连接"
shown_state (some reconnecting) = text "● 重连中"

unfoldable pub status_text : App → Text
status_text a = if is_running a then shown_state a.state else text "● 未连接"

-- `{:02}`.
abbrev padded : ℕ → Text
padded n = if ltb n 10 then b'0' ∷ decimal n else decimal n

-- The two texts beside it; none while no client runs. `elapsed` is in seconds.
abbrev counters : (elapsed reconnects : ℕ) → Text × Text
counters elapsed reconnects = (
  text "运行时长 "
      ++ padded (elapsed / 3600)
      ++ b':' ∷ padded (elapsed % 3600 / 60)
      ++ b':' ∷ padded (elapsed % 60),
  text "重连次数 " ++ decimal reconnects,
)

unfoldable pub status_counters : (now : ℕ) → App → Option (Text × Text)
status_counters now a = elim a.running [
  | none ↦ none
  | some r ↦ some (counters (now - r.started_at) a.reconnects)
]
