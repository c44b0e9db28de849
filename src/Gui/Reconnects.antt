-- ===== src/Gui/Reconnects.antt =====
-- The counter in the window of src/gui.rs against the loop of src/client.rs.
use mini_mask.Common.{
  ℕ, ◌+◌, ◌%◌, ◌^◌, ◌≡◌, ◌≢◌, refl, sym, ap, ◌∙◌, List, [], ◌∷◌, Option, none, some, Bool, true,
  false, Text, Result, ok, err, length, count_by, All, arith, if◌then◌else◌, length-append,
  count_by-append,
}
use mini_mask.Client.Events.{
  ClientArgs, ClientEvent, LogLevel, log, state, EventSink, send, info, connecting, connected,
  reconnecting,
}
use mini_mask.Client.Supervised.{
  Round, Cancel, never, before, during, after, sleeping, Loop, report, round, rounds, greeting,
  run_supervised,
}
use mini_mask.Gui.App.{App, drained, emptied, pump_events}
use mini_mask.Gui.Logs.{is_reconnection, reconnects-apply_events}

abbrev pub heard : EventSink → List ClientEvent
heard sink = elim sink.tx [ none ↦ [] | some sent ↦ sent ]

-- How many reconnections a sink has taken; none if it has no channel.
abbrev pub tally : EventSink → Option ℕ
tally sink = elim sink.tx [ none ↦ none | some sent ↦ some (count_by is_reconnection sent) ]

abbrev more : ℕ → Option ℕ → Option ℕ
more n none = none
more n (some k) = some (k + n)

tally-send :
    (e : ClientEvent) (sink : EventSink)
    → tally (send e sink) ≡ more (if is_reconnection e then 1 else 0) (tally sink)
tally-send e sink = tallied sink.tx
  where
    tallied :
        (tx : Option (List ClientEvent))
        → tally (send e (record { tx = tx }))
          ≡ more (if is_reconnection e then 1 else 0) (tally (record { tx = tx }))
    tallied none = refl
    tallied (some sent) = ap some (ground (arith, count_by-append is_reconnection sent (e ∷ [])))

more-0 : (t : Option ℕ) → more 0 t ≡ t
more-0 none = refl
more-0 (some k) = ap some (omega arith)

pub tally-log :
    (level : LogLevel) (message : Text) (sink : EventSink)
    → tally (send (log level message) sink) ≡ tally sink
tally-log level message sink = tally-send (log level message) sink ∙ more-0 (tally sink)

pub tally-connected : (sink : EventSink) → tally (send (state connected) sink) ≡ tally sink
tally-connected sink = tally-send (state connected) sink ∙ more-0 (tally sink)

-- A round in which `run_once` reports no reconnection, and that is not cancelled in its sleep.
pub record IsPlain {E : Type 0} (o : Round E) : Type 0 where
  pub quiet : (sink : EventSink) → tally (o.events sink) ≡ tally sink
  pub awake : o.cancel ≢ sleeping

module _ {E : Type 0} (display : E → Text) where
  tally-report :
      (r : Result E (Unit {0})) (backoff : ℕ) (sink : EventSink)
      → tally (report display r backoff sink) ≡ tally sink
  tally-report (ok _) backoff sink = tally-log _ _ sink
  tally-report (err e) backoff sink = tally-log _ _ sink

  -- So far the loop has reported each of its sleeps, and nothing else, as a reconnection.
  abbrev IsCounted : Loop → Type 0
  IsCounted l = tally l.sink ≡ some (length l.slept)

  module _ (o : Round E) (l : Loop) (plain : IsPlain o) (h : IsCounted l) where
    tried : EventSink
    tried = o.events (send (state connecting) l.sink)

    tally-tried : tally tried ≡ tally l.sink
    unfolding tried
    tally-tried =
        plain.quiet (send (state connecting) l.sink)
        ∙ tally-send (state connecting) l.sink
        ∙ more-0 (tally l.sink)

    told : EventSink
    told = report display o.outcome l.backoff (o.events (send (state connecting) l.sink))

    tally-told : tally told ≡ some (length l.slept)
    unfolding told tried
    tally-told = tally-report o.outcome l.backoff _ ∙ tally-tried ∙ h

    round-IsCounted : (c : Cancel) → o.cancel ≡ c → IsCounted (round display o l)
    unfolding told tried
    round-IsCounted never e = rw e (
        tally-send (state reconnecting) _
        ∙ ap (more 1) tally-told
        ∙ ap some (sym (length-append l.slept (_ ∷ []))))
    round-IsCounted before e = rw e (tally-log _ _ l.sink ∙ h)
    round-IsCounted during e = rw e (tally-log _ _ _ ∙ tally-tried ∙ h)
    round-IsCounted after e = rw e (tally-log _ _ _ ∙ tally-told)
    round-IsCounted sleeping e = absurd (plain.awake e)

  either : (b : Bool) (x y : Loop) → IsCounted x → IsCounted y → IsCounted (if b then x else y)
  either true x y h k = h
  either false x y h k = k

  rounds-IsCounted :
      (os : List (Round E)) (l : Loop)
      → All IsPlain os
      → IsCounted l
      → IsCounted (rounds display os l)
  unfolding rounds
  rounds-IsCounted [] l p h = h
  rounds-IsCounted (o ∷ os) l p h =
      either l.returned l (rounds display os (round display o l)) h
        (rounds-IsCounted os (round display o l) p.1 (round-IsCounted o l p.0 h o.cancel refl))

count-heard :
    (sink : EventSink) (k : ℕ) → tally sink ≡ some k → count_by is_reconnection (heard sink) ≡ k
count-heard sink k h = counted sink.tx h
  where
    counted :
        (tx : Option (List ClientEvent))
        → tally (record { tx = tx }) ≡ some k
        → count_by is_reconnection (heard (record { tx = tx })) ≡ k
    counted none e = absurd (cc)
    counted (some sent) e = cc

-- A client that has sent into the window's channel for any number of rounds has slept as often as the
-- window, once it has read the channel, counts reconnections, modulo 2^32. The window starts from 0;
-- no attempt reports a reconnection itself; and no round is cancelled in its sleep.
pub reconnects-run_supervised :
    {E : Type 0} (display : E → Text) (args : ClientArgs) (os : List (Round E)) (clock : ℕ → Text)
    (a : App)
    → let l = run_supervised display args os (record { tx = some [] }) in
      All IsPlain os
      → a.reconnects ≡ 0
      → drained a.running ≡ heard l.sink
      → (pump_events clock a).reconnects ≡ length l.slept % 2 ^ 32
unfolding run_supervised pump_events
reconnects-run_supervised display args os clock a plain zeroed all =
    let es = drained a.running in
    let a' = record a { running = emptied a.running } in
    let l = run_supervised display args os (record { tx = some [] }) in
    let counted : count_by is_reconnection (heard l.sink) ≡ length l.slept =
      count-heard l.sink (length l.slept) (
        rounds-IsCounted display os _ plain
          (tally-log info (greeting args) (record { tx = some [] }))) in
    let sum : a.reconnects + count_by is_reconnection es ≡ length l.slept =
      omega (arith, zeroed, ap (count_by is_reconnection) all, counted) in
    reconnects-apply_events clock es a' (rw zeroed (omega arith)) ∙ ap (λ (k : ℕ). k % 2 ^ 32) sum
