-- ===== src/Gui/Safety.antt =====
-- The clients that the window of src/gui.rs starts, over all that can happen to it.
use mini_mask.Common.{
  ℕ, suc, ◌≤◌, ◌≡◌, ◌≢◌, refl, sym, List, [], ◌∷◌, Option, none, some, Bool, true, false, not, Text,
  ok, map, length, drop, count_by, All, arith, Bool-cases, inl, inr, length-append, length-drop,
}
use mini_mask.Client.Events.{ClientEvent, log, state, connecting, connected, reconnecting, LogLevel}
use mini_mask.Gui.Settings.{Settings, validate, client_args}
use mini_mask.Gui.App.{
  max_log_lines, Running, App, Spawned, Desktop, push_log, cancel_one, apply_event, apply_events,
  emptied, drained, pump_events, received,
}
use mini_mask.Gui.Window.{Frame, cfg_grid}

abbrev pub Owns : Option Running → ℕ → Type 0
Owns none token = ⊥
Owns (some r) token = r.cancel ≡ token

-- If a client is not cancelled, the window holds its token, and its arguments are those of the
-- settings, which are valid.
pub record IsCurrent (run : Option Running) (s : Settings) (c : Spawned) : Type 0 where
  pub owned : c.cancelled ≡ false → Owns run c.token
  pub args : c.cancelled ≡ false → c.args ≡ client_args s
  pub valid : c.cancelled ≡ false → validate s ≡ ok tt

abbrev pub is_live : Spawned → Bool
is_live c = not c.cancelled

pub record IsFine (run : Option Running) (s : Settings) (cs : List Spawned) : Type 0 where
  pub live : All (IsCurrent run s) cs
  pub one : count_by is_live cs ≤ 1

-- Every client that is not cancelled is the one of the window; there is at most one; and the log is
-- not longer than its bound.
pub record IsSound (a : App) (cs : List Spawned) : Type 0 where
  pub fine : IsFine a.running a.settings cs
  pub window : length a.logs ≤ max_log_lines

abbrev pub IsSafe : Desktop → Type 0
IsSafe g = IsSound g.app g.clients

-- Without a client in the window all are cancelled, and the settings are free.
idle-count :
    (s : Settings) (cs : List Spawned) → All (IsCurrent none s) cs → count_by is_live cs ≡ 0
idle-count s [] h = refl
idle-count s (c ∷ cs) h = elim (Bool-cases c.cancelled) [
  | inl e ↦ ground (arith, e, idle-count s cs h.1)
  | inr e ↦ absurd (h.0.owned e)
]

idle-free :
    (run : Option Running) (s s' : Settings) (cs : List Spawned)
    → All (IsCurrent none s) cs
    → All (IsCurrent run s') cs
idle-free run s s' [] h = tt
idle-free run s s' (c ∷ cs) h = (
  record {
    owned = λ e. absurd (h.0.owned e);
    args = λ e. absurd (h.0.owned e);
    valid = λ e. absurd (h.0.owned e);
  },
  idle-free run s s' cs h.1,
)

-- A change of what the window holds that keeps its token, and of the theme.
pub kept :
    (run run' : Option Running) (s s' : Settings)
    → ((token : ℕ) → Owns run token → Owns run' token)
    → client_args s' ≡ client_args s
    → validate s' ≡ validate s
    → (cs : List Spawned) → All (IsCurrent run s) cs
    → All (IsCurrent run' s') cs
kept run run' s s' o a v [] h = tt
kept run run' s s' o a v (c ∷ cs) h = (
  record {
    owned = λ e. o c.token (h.0.owned e);
    args = λ e. rw a (h.0.args e);
    valid = λ e. rw v (h.0.valid e);
  },
  kept run run' s s' o a v cs h.1,
)

-- A cancel of the token in the window leaves no client.
pub cancel_one-live :
    (token : ℕ) (c : Spawned)
    → (cancel_one token c).cancelled ≡ false
    → (c.cancelled ≡ false) × (c.token ≢ token)
cancel_one-live token c h = (ground arith, ground arith)

pub map-cancel_one-All :
    (r : Running) (s : Settings) (cs : List Spawned)
    → All (IsCurrent (some r) s) cs
    → All (IsCurrent none s) (map (cancel_one r.cancel) cs)
map-cancel_one-All r s [] h = tt
map-cancel_one-All r s (c ∷ cs) h = (
  record { owned = gone; args = λ e. absurd (gone e); valid = λ e. absurd (gone e) },
  map-cancel_one-All r s cs h.1,
)
  where
    gone : (cancel_one r.cancel c).cancelled ≢ false
    gone e = let (live, other) = cancel_one-live r.cancel c e in other (sym (h.0.owned live))

-- A client more.
pub spawned-IsFine :
    (s : Settings) (cs : List Spawned) (r : Running)
    → validate s ≡ ok tt
    → All (IsCurrent none s) cs
    → IsFine (some r) s (record { token = r.cancel; cancelled = false; args = client_args s } ∷ cs)
spawned-IsFine s cs r v h = record {
  live =
      (record { owned = λ e. refl; args = λ e. refl; valid = λ e. v }, idle-free (some r) s s cs h);
  one = omega (arith, idle-count s cs h);
}

pub push_log-IsSound :
    (level : LogLevel) (message time : Text) (a : App) (cs : List Spawned)
    → IsSound a cs
    → IsSound (push_log level message time a) cs
push_log-IsSound level message time a cs h = record {
  fine = h.fine;
  window = ground (
    arith,
    h.window,
    length-append a.logs (record { level = level; time = time; message = message } ∷ []),
    length-append (drop 1 a.logs) (record { level = level; time = time; message = message } ∷ []),
    length-drop 1 a.logs,
  );
}

apply_event-IsSound :
    (time : Text) (e : ClientEvent) (a : App) (cs : List Spawned)
    → IsSound a cs
    → IsSound (apply_event time e a) cs
apply_event-IsSound time (log level message) a cs h = push_log-IsSound level message time a cs h
apply_event-IsSound time (state connecting) a cs h = record { fine = h.fine; window = h.window }
apply_event-IsSound time (state connected) a cs h = record { fine = h.fine; window = h.window }
apply_event-IsSound time (state reconnecting) a cs h = record { fine = h.fine; window = h.window }

apply_events-IsSound :
    (clock : ℕ → Text) (es : List ClientEvent) (a : App) (cs : List Spawned)
    → IsSound a cs
    → IsSound (apply_events clock es a) cs
unfolding apply_events
apply_events-IsSound clock [] a cs h = h
apply_events-IsSound clock (e ∷ es) a cs h =
    apply_events-IsSound (λ n. clock (suc n)) es (apply_event (clock 0) e a) cs
      (apply_event-IsSound (clock 0) e a cs h)

Owns-emptied : (run : Option Running) (token : ℕ) → Owns run token → Owns (emptied run) token
Owns-emptied none token h = h
Owns-emptied (some r) token h = h

pub Owns-received :
    (t : ℕ) (e : ClientEvent) (run : Option Running) (token : ℕ)
    → Owns run token
    → Owns (received t e run) token
Owns-received t e none token h = h
Owns-received t e (some r) token h = ground arith

-- A new value of what the window holds, with the same token.
module _ (a : App) (cs : List Spawned) (run : Option Running)
    (o : (token : ℕ) → Owns a.running token → Owns run token) where
  pub rerun-IsSound : IsSound a cs → IsSound (record a { running = run }) cs
  rerun-IsSound h = record {
    fine = record {
      live = kept a.running run a.settings a.settings o refl refl cs h.fine.live;
      one = h.fine.one;
    };
    window = h.window;
  }

pub pump_events-IsSound :
    (clock : ℕ → Text) (a : App) (cs : List Spawned)
    → IsSound a cs
    → IsSound (pump_events clock a) cs
unfolding pump_events
pump_events-IsSound clock a cs h =
    apply_events-IsSound clock (drained a.running) (record a { running = emptied a.running }) cs
      (rerun-IsSound a cs (emptied a.running) (Owns-emptied a.running) h)

-- While a client runs the fields cannot be changed.
cfg_grid-running : (f : Frame) (s : Settings) → cfg_grid true f s ≡ s
unfolding cfg_grid
cfg_grid-running f s = ground arith

pub cfg_grid-IsFine :
    (f : Frame) (run : Option Running) (s : Settings) (cs : List Spawned)
    → IsFine run s cs
    → IsFine run (cfg_grid (elim run [ none ↦ false | some _ ↦ true ]) f s) cs
cfg_grid-IsFine f none s cs h = record {
  live = idle-free none s (cfg_grid false f s) cs h.live;
  one = h.one;
}
cfg_grid-IsFine f (some r) s cs h = rw (cfg_grid-running f s) h
