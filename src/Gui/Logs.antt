-- ===== src/Gui/Logs.antt =====
-- What the window of src/gui.rs makes of the events that it reads.
use mini_mask.Common.{
  ℕ, suc, ◌+◌, ◌%◌, ◌^◌, ◌≤◌, ◌<◌, ◌≡◌, refl, sym, ap, ◌∙◌, List, [], ◌∷◌, ◌++◌, Option, none, some,
  Bool, true, false, Text, length, count_by, last_n, last_n_short, length-last_n, last_n-append,
  last_n-push, arith,
}
use mathlib.Core.List.{append-nil, append_assoc}
use mini_mask.Client.Events.{
  ClientEvent, log, state, ConnState, connecting, connected, reconnecting,
}
use mini_mask.Gui.App.{
  max_log_lines, LogLine, Running, App, push_log, apply_event, apply_events, drained, emptied,
  pump_events,
}

-- The lines among the events, the last state, and whether an event is a reconnection.
abbrev pub log_lines : (ℕ → Text) → List ClientEvent → List LogLine
log_lines clock [] = []
log_lines clock (log level message ∷ es) =
    record { level = level; time = clock 0; message = message } ∷ log_lines (λ n. clock (suc n)) es
log_lines clock (state s ∷ es) = log_lines (λ n. clock (suc n)) es

abbrev pub last_state : Option ConnState → List ClientEvent → Option ConnState
last_state s [] = s
last_state s (log level message ∷ es) = last_state s es
last_state s (state s' ∷ es) = last_state (some s') es

abbrev pub is_reconnection : ClientEvent → Bool
is_reconnection (log level message) = false
is_reconnection (state connecting) = false
is_reconnection (state connected) = false
is_reconnection (state reconnecting) = true

logs-apply_events :
    (clock : ℕ → Text) (es : List ClientEvent) (a : App)
    → length a.logs ≤ max_log_lines
    → (apply_events clock es a).logs ≡ last_n max_log_lines (a.logs ++ log_lines clock es)
unfolding apply_events
logs-apply_events clock [] a h =
    sym (ap (last_n max_log_lines) (append-nil a.logs) ∙ last_n_short max_log_lines a.logs h)
logs-apply_events clock (log level message ∷ es) a h =
    let line : LogLine = record { level = level; time = clock 0; message = message } in
    let later = λ (n : ℕ). clock (suc n) in
    let first : (push_log level message (clock 0) a).logs
        ≡ last_n max_log_lines (a.logs ++ line ∷ []) =
      last_n-push max_log_lines line a.logs (omega arith) h in
    logs-apply_events later es (push_log level message (clock 0) a)
      (rw first (length-last_n max_log_lines (a.logs ++ line ∷ [])))
    ∙ ap (λ (ls : List LogLine). last_n max_log_lines (ls ++ log_lines later es)) first
    ∙ last_n-append max_log_lines (a.logs ++ line ∷ []) (log_lines later es)
    ∙ ap (last_n max_log_lines) (append_assoc a.logs (line ∷ []) (log_lines later es))
logs-apply_events clock (state connecting ∷ es) a h =
    logs-apply_events (λ n. clock (suc n)) es (record a { state = some connecting }) h
logs-apply_events clock (state connected ∷ es) a h =
    logs-apply_events (λ n. clock (suc n)) es (record a { state = some connected }) h
logs-apply_events clock (state reconnecting ∷ es) a h =
    logs-apply_events (λ n. clock (suc n)) es (apply_event (clock 0) (state reconnecting) a) h

state-apply_events :
    (clock : ℕ → Text) (es : List ClientEvent) (a : App)
    → (apply_events clock es a).state ≡ last_state a.state es
unfolding apply_events
state-apply_events clock [] a = refl
state-apply_events clock (log level message ∷ es) a =
    state-apply_events (λ n. clock (suc n)) es (push_log level message (clock 0) a)
state-apply_events clock (state connecting ∷ es) a =
    state-apply_events (λ n. clock (suc n)) es (apply_event (clock 0) (state connecting) a)
state-apply_events clock (state connected ∷ es) a =
    state-apply_events (λ n. clock (suc n)) es (apply_event (clock 0) (state connected) a)
state-apply_events clock (state reconnecting ∷ es) a =
    state-apply_events (λ n. clock (suc n)) es (apply_event (clock 0) (state reconnecting) a)

pub reconnects-apply_events :
    (clock : ℕ → Text) (es : List ClientEvent) (a : App)
    → a.reconnects < 2 ^ 32
    → (apply_events clock es a).reconnects ≡ (a.reconnects + count_by is_reconnection es) % 2 ^ 32
unfolding apply_events
reconnects-apply_events clock [] a h = omega (arith, h)
reconnects-apply_events clock (log level message ∷ es) a h =
    reconnects-apply_events (λ n. clock (suc n)) es (push_log level message (clock 0) a) h
reconnects-apply_events clock (state connecting ∷ es) a h =
    reconnects-apply_events (λ n. clock (suc n)) es (apply_event (clock 0) (state connecting) a) h
reconnects-apply_events clock (state connected ∷ es) a h =
    reconnects-apply_events (λ n. clock (suc n)) es (apply_event (clock 0) (state connected) a) h
reconnects-apply_events clock (state reconnecting ∷ es) a h =
    let a' = apply_event (clock 0) (state reconnecting) a in
    omega (arith, reconnects-apply_events (λ n. clock (suc n)) es a' (omega arith))

running-apply_events :
    (clock : ℕ → Text) (es : List ClientEvent) (a : App)
    → (apply_events clock es a).running ≡ a.running
unfolding apply_events
running-apply_events clock [] a = refl
running-apply_events clock (log level message ∷ es) a =
    running-apply_events (λ n. clock (suc n)) es (push_log level message (clock 0) a)
running-apply_events clock (state connecting ∷ es) a =
    running-apply_events (λ n. clock (suc n)) es (apply_event (clock 0) (state connecting) a)
running-apply_events clock (state connected ∷ es) a =
    running-apply_events (λ n. clock (suc n)) es (apply_event (clock 0) (state connected) a)
running-apply_events clock (state reconnecting ∷ es) a =
    running-apply_events (λ n. clock (suc n)) es (apply_event (clock 0) (state reconnecting) a)

drained-emptied : (run : Option Running) → drained (emptied run) ≡ []
drained-emptied none = refl
drained-emptied (some r) = refl

-- Reading what the client has sent appends its lines to the log, of which the last 2000 are kept, in
-- their order and with the times at which they were read; the state shown is the last one sent; and the
-- counter goes up by the number of reconnections, modulo 2^32. Nothing is read twice. The log has at
-- most 2000 lines before, and the counter is a `u32`.
pub pump_events_lem :
    (clock : ℕ → Text) (a : App)
    → length a.logs ≤ max_log_lines
    → a.reconnects < 2 ^ 32
    → let es = drained a.running in
      let a' = pump_events clock a in
      (a'.logs ≡ last_n max_log_lines (a.logs ++ log_lines clock es))
      × (a'.state ≡ last_state a.state es)
      × (a'.reconnects ≡ (a.reconnects + count_by is_reconnection es) % 2 ^ 32)
      × (drained a'.running ≡ [])
unfolding pump_events
pump_events_lem clock a h r =
    let es = drained a.running in
    let a' = record a { running = emptied a.running } in
    (
      logs-apply_events clock es a' h,
      state-apply_events clock es a',
      reconnects-apply_events clock es a' r,
      ap drained (running-apply_events clock es a') ∙ drained-emptied a.running,
    )
