-- ===== src/Examples/Desk.antt =====
-- The theorems about src/gui.rs at work.
use mini_mask.Common.{◌≡◌, refl, [], ◌∷◌, none, some, true, false, Text, ok, err}
use mini_mask.Client.Events.{ClientArgs, EventSink, log, info}
use mini_mask.Client.Attempt.{in_time, ClientError}
use mini_mask.Client.Streams.{StreamError}
use mini_mask.Gui.Attempts.{Attempt, channel, attempt_rounds, reconnects-attempts}
use mini_mask.Client.Supervised.{run_supervised}
use mini_mask.Gui.Settings.{SettingsJson, default_settings}
use mini_mask.Gui.App.{App, Desktop, pump_events}
use mini_mask.Gui.Window.{Frame, update}
use mini_mask.Gui.Safety.{IsSafe}
use mini_mask.Gui.Steps.{here, next, frame, sent, opened, emit, Reach-IsSafe}
use mini_mask.Gui.Reconnects.{heard}
use mini_mask.Examples.Given.{no_files}

-- A file of settings is read as the defaults.
abbrev plain_settings : SettingsJson
plain_settings = record {
  to_json = λ s. some s.server;
  from_json = λ path raw. some default_settings;
}

-- A frame in which the user types an id and a token and clicks on the button.
abbrev clicks : Frame
clicks = record {
  server = none;
  id = some (b'a' ∷ []);
  token = some (b't' ∷ []);
  server_name = none;
  ca_path = none;
  tls_clicked = false;
  skip_clicked = false;
  eye_clicked = false;
  main_clicked = true;
  save_clicked = false;
  theme_clicked = true;
  clear_clicked = false;
  scroll_clicked = false;
  clock = λ n. [];
  main_time = [];
  save_time = [];
  built = ok tt;
  instant = 7;
}

abbrev running : Desktop
running = update plain_settings clicks (opened plain_settings no_files)

-- The client sends a line, the user disconnects, and connects again.
abbrev later : Desktop
later =
    update plain_settings clicks
      (update plain_settings clicks (emit 0 (log info (b'x' ∷ [])) running))

later-IsSafe : IsSafe later
later-IsSafe = Reach-IsSafe plain_settings no_files later (
    next (next (next (next here (frame clicks)) (sent 0 (log info (b'x' ∷ [])))) (frame clicks))
      (frame clicks))

abbrev args : ClientArgs
args = record {
  server = b's' ∷ [];
  id = b'a' ∷ [];
  token = b't' ∷ [];
  tls = false;
  server_name = b'l' ∷ [];
  ca_path = b'c' ∷ [];
  insecure_skip_verify = false;
}

-- The connection is refused, twice.
abbrev refused : Attempt
refused = record {
  net = record {
    tcp = err (b'x' ∷ []);
    tls = ok tt;
    stream = record { out = []; faults = [] };
    incoming = [];
    pace = in_time;
  };
  streams = [];
  factor = 1_000_000_000;
}

abbrev show_stream : StreamError → Text
show_stream e = b's' ∷ []

abbrev show_client : ClientError → Text
show_client e = b'c' ∷ []

abbrev sink : EventSink
sink =
    (run_supervised show_client args (attempt_rounds show_stream args (refused ∷ refused ∷ []))
      channel).sink

abbrev window : App
window = record {
  settings = default_settings;
  show_token = false;
  state = none;
  running = some (record { cancel = 0; events = heard sink; started_at = 0 });
  logs = [];
  auto_scroll = true;
  reconnects = 0;
}

reconnects_example : (pump_events (λ n. []) window).reconnects ≡ 2
reconnects_example =
    reconnects-attempts show_stream show_client args (refused ∷ refused ∷ []) (λ n. []) window refl
      refl
