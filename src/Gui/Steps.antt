-- ===== src/Gui/Steps.antt =====
-- All that can happen to the desktop client of src/gui.rs, in any order.
use mini_mask.Common.{
  ℕ, ◌≤◌, ◌≡◌, refl, List, [], ◌∷◌, ◌++◌, Option, none, some, Bool, true, false, Text, text, Result,
  ok, err, map, count_by, arith, if◌then◌else◌,
}
use mini_mask.Disk.{Disk}
use mini_mask.Client.Events.{ClientEvent, info, error}
use mini_mask.Gui.Settings.{SettingsJson, validate, client_args}
use mini_mask.Gui.App.{
  Running, App, Spawned, Desktop, new_app, is_running, cancel_one, save_settings, cancel, launch,
  start, start_if, stop, let_go, pump_events, on_exit, received,
}
use mini_mask.Gui.Window.{
  Frame, toggle_theme, top_bar, main_button, save_button, edited, config_card, log_card, update,
}
use mini_mask.Gui.Safety.{
  IsFine, IsSound, IsSafe, is_live, kept, map-cancel_one-All, spawned-IsFine, push_log-IsSound,
  Owns-received, rerun-IsSound, pump_events-IsSound, cfg_grid-IsFine,
}

-- The desktop when the program has just been opened.
unfoldable pub opened : SettingsJson → Disk → Desktop
opened json d = record { app = new_app json d; disk = d; clients = []; next_token = 0 }

abbrev pub emit : (token : ℕ) → ClientEvent → Desktop → Desktop
emit token e g = record g { app = record g.app { running = received token e g.app.running } }

pub data Step (json : SettingsJson) (g : Desktop) : Desktop → Type 0 where
  frame : (f : Frame) → Step json g (update json f g)
  sent : (token : ℕ) (e : ClientEvent) → Step json g (emit token e g)
  exit : Step json g (on_exit json g)

pub data Reach (json : SettingsJson) (s : Desktop) : Desktop → Type 0 where
  here : Reach json s s
  next : {t u : Desktop} → Reach json s t → Step json t u → Reach json s u

live-cancel-le :
    (token : ℕ) (cs : List Spawned)
    → count_by is_live (map (cancel_one token) cs) ≤ count_by is_live cs
live-cancel-le token [] = omega arith
live-cancel-le token (c ∷ cs) = ground (arith, live-cancel-le token cs)

clicked : (b : Bool) (g g' : Desktop) → IsSafe g → IsSafe g' → IsSafe (if b then g else g')
clicked true g g' h h' = h
clicked false g g' h h' = h'

-- What the window does when it lets its client go, and when the program ends.
let_go-IsSafe :
    (run : Option Running) (g : Desktop)
    → IsFine run g.app.settings g.clients
    → IsSafe g
    → IsSafe (let_go run g)
let_go-IsSafe none g f h = h
let_go-IsSafe (some r) g f h = record {
  fine = record {
    live = map-cancel_one-All r g.app.settings g.clients f.live;
    one = omega (arith, f.one, live-cancel-le r.cancel g.clients);
  };
  window = h.window;
}

stop-IsSafe : (time : Text) (g : Desktop) → IsSafe g → IsSafe (stop time g)
unfolding stop
stop-IsSafe time g h =
    let free = let_go g.app.running g in
    let safe : IsSafe free = let_go-IsSafe g.app.running g h.fine h in
    push_log-IsSound info (text "已断开连接") time (record free.app { state = none }) free.clients
      (record { fine = safe.fine; window = safe.window })

exited :
    (run : Option Running) (g : Desktop)
    → g.app.running ≡ run
    → IsFine run g.app.settings g.clients
    → IsSafe g
    → IsSafe (elim run [ none ↦ g | some r ↦ cancel r.cancel g ])
exited none g e f h = h
exited (some r) g e f h = record {
  fine = record {
    live =
        kept none g.app.running g.app.settings g.app.settings (λ token x. absurd x) refl refl
          (map (cancel_one r.cancel) g.clients)
          (map-cancel_one-All r g.app.settings g.clients f.live);
    one = omega (arith, f.one, live-cancel-le r.cancel g.clients);
  };
  window = h.window;
}

on_exit-IsSafe : (json : SettingsJson) (g : Desktop) → IsSafe g → IsSafe (on_exit json g)
unfolding on_exit
on_exit-IsSafe json g h = exited g.app.running (save_settings json g) refl h.fine h

-- A start, if no client runs.
launch-IsSafe :
    (built : Result Text (Unit {0})) (at : ℕ) (time : Text) (g : Desktop)
    → validate g.app.settings ≡ ok tt
    → IsFine none g.app.settings g.clients
    → IsSafe g
    → IsSafe (launch built at time g)
launch-IsSafe (err e) at time g v f h =
    push_log-IsSound error (text "无法创建运行时：" ++ e) time g.app g.clients h
launch-IsSafe (ok _) at time g v f h = record {
  fine =
      spawned-IsFine g.app.settings g.clients
        (record { cancel = g.next_token; events = []; started_at = at }) v f.live;
  window = h.window;
}

module _ (json : SettingsJson) where
  start_if-IsSafe :
      (r built : Result Text (Unit {0})) (at : ℕ) (time : Text) (g : Desktop)
      → validate g.app.settings ≡ r
      → IsFine none g.app.settings g.clients
      → IsSafe g
      → IsSafe (start_if json r built at time g)
  start_if-IsSafe (err e) built at time g v f h = push_log-IsSound error e time g.app g.clients h
  start_if-IsSafe (ok _) built at time g v f h =
      let saved = save_settings json g in
      launch-IsSafe built at time (record saved { app = record saved.app { reconnects = 0 } }) v f
        (record { fine = h.fine; window = h.window })

  started :
      (run : Option Running) (built : Result Text (Unit {0})) (at : ℕ) (time : Text) (g : Desktop)
      → IsFine run g.app.settings g.clients
      → IsSafe g
      → IsSafe (
          if (elim run [ none ↦ false | some _ ↦ true ])
          then g
          else start_if json (validate g.app.settings) built at time g)
  started none built at time g f h =
      start_if-IsSafe (validate g.app.settings) built at time g refl f h
  started (some r) built at time g f h = h

  start-IsSafe :
      (built : Result Text (Unit {0})) (at : ℕ) (time : Text) (g : Desktop)
      → IsSafe g
      → IsSafe (start json built at time g)
  unfolding start
  start-IsSafe built at time g h = started g.app.running built at time g h.fine h

  main_button-IsSafe :
      (running : Bool) (f : Frame) (g : Desktop) → IsSafe g → IsSafe (main_button json running f g)
  main_button-IsSafe true f g h = clicked f.main_clicked _ g (stop-IsSafe f.main_time g h) h
  main_button-IsSafe false f g h =
      clicked f.main_clicked _ g (start-IsSafe f.built f.instant f.main_time g h) h

  save_button-IsSafe : (f : Frame) (g : Desktop) → IsSafe g → IsSafe (save_button json f g)
  save_button-IsSafe f g h =
      clicked f.save_clicked _ g
        (push_log-IsSound info (text "配置已保存") f.save_time g.app g.clients h) h

  config_card-IsSafe : (f : Frame) (g : Desktop) → IsSafe g → IsSafe (config_card json f g)
  unfolding config_card
  config_card-IsSafe f g h =
      let g' = edited (is_running g.app) f g in
      save_button-IsSafe f (main_button json (is_running g.app) f g') (
        main_button-IsSafe (is_running g.app) f g' (record {
          fine = cfg_grid-IsFine f g.app.running g.app.settings g.clients h.fine;
          window = h.window;
        }))

  -- The theme is no part of what the client was started with.
  top_bar-IsSafe : (f : Frame) (g : Desktop) → IsSafe g → IsSafe (top_bar json f g)
  unfolding top_bar client_args validate
  top_bar-IsSafe f g h =
      clicked f.theme_clicked _ g
        (record {
          fine = record {
            live =
                kept g.app.running g.app.running g.app.settings (toggle_theme json g).app.settings
                  (λ token x. x) refl refl g.clients h.fine.live;
            one = h.fine.one;
          };
          window = h.window;
        })
        h

  log_card-IsSound :
      (f : Frame) (a : App) (cs : List Spawned) → IsSound a cs → IsSound (log_card f a) cs
  unfolding log_card
  log_card-IsSound f a cs h = record { fine = h.fine; window = ground (arith, h.window) }

  update-IsSafe : (f : Frame) (g : Desktop) → IsSafe g → IsSafe (update json f g)
  unfolding update
  update-IsSafe f g h =
      let read = record g { app = pump_events f.clock g.app } in
      let done = config_card json f (top_bar json f read) in
      log_card-IsSound f done.app done.clients (
        config_card-IsSafe f (top_bar json f read)
          (top_bar-IsSafe f read (pump_events-IsSound f.clock g.app g.clients h)))

  Step-IsSafe : {t u : Desktop} → Step json t u → IsSafe t → IsSafe u
  Step-IsSafe {t} (frame f) h = update-IsSafe f t h
  Step-IsSafe {t} (sent token e) h =
      rerun-IsSound t.app t.clients (received token e t.app.running)
        (Owns-received token e t.app.running) h
  Step-IsSafe {t} exit h = on_exit-IsSafe json t h

  Reach-start : {t u : Desktop} → IsSafe t → Reach json t u → IsSafe u
  Reach-start h here = h
  Reach-start h (next r st) = Step-IsSafe st (Reach-start h r)

-- Whatever the user clicks and types in any frames, whatever the clients send between them, and
-- whether or not a save or a start of the runtime fails: from the opening of the program on at most
-- one client is not cancelled; it is the one whose token the window holds, it was started with
-- arguments that are those of the settings now in the fields, and these settings are valid. The log
-- never has more than 2000 lines.
pub Reach-IsSafe :
    (json : SettingsJson) (d : Disk) (g : Desktop) → Reach json (opened json d) g → IsSafe g
unfolding opened new_app
Reach-IsSafe json d g r =
    Reach-start json
      (record { fine = record { live = tt; one = omega arith }; window = omega arith }) r
