-- ===== src/Client/Supervised.antt =====
-- The supervised loop of src/client.rs.
use mini_mask.Common.{
  none, ℕ, ◌+◌, ◌*◌, ◌/◌, ◌%◌, min, List, [], ◌∷◌, ◌++◌, Bool, true, false, Text, text, decimal,
  Result, ok, err, ltb, if◌then◌else◌,
}
use mini_mask.Client.Events.{
  ClientArgs, EventSink, log_info, log_warn, log_error, set_state, connecting, reconnecting,
}

-- Durations are in milliseconds.
abbrev pub initial_backoff : ℕ
initial_backoff = 500

abbrev pub max_backoff : ℕ
max_backoff = 30_000

-- `factor` is the random factor in units of a thousand millionth, from 0.9 to 1.1; the rounding of
-- the floating-point product is left out.
unfoldable pub jitter : (d factor : ℕ) → ℕ
jitter d factor = d * factor / 1_000_000_000

-- `{:.2?}` of a whole number of hundredths of a second.
abbrev pub two_digits : ℕ → Text
two_digits n = (b'0' + n / 10) ∷ (b'0' + n % 10) ∷ []

unfoldable pub show_duration : ℕ → Text
show_duration ms =
    if ltb ms 1000
    then decimal ms ++ text ".00ms"
    else decimal (ms / 1000) ++ text "." ++ two_digits (ms % 1000 / 10) ++ text "s"

-- Where in a round the user cancels, if at all. A cancel during the attempt stops it; one after it has
-- ended is seen at the test or in the sleep.
pub data Cancel : Type 0 where
  never before during after sleeping : Cancel

-- A round: when it is cancelled, how `run_once` ends and what it reports, up to the cancel if there is
-- one, and the random factor of the sleep.
pub record Round (E : Type 0) : Type 0 where
  pub cancel : Cancel
  pub outcome : Result E (Unit {0})
  pub events : EventSink → EventSink
  pub factor : ℕ

-- The next back-off.
abbrev pub next_backoff : {E : Type 0} → Result E (Unit {0}) → ℕ → ℕ
next_backoff (ok _) backoff = initial_backoff
next_backoff (err _) backoff = min (backoff * 2) max_backoff

-- Whether the loop has returned, its back-off, how long it has slept each time, and its sink.
pub record Loop : Type 0 where
  pub returned : Bool
  pub backoff : ℕ
  pub slept : List ℕ
  pub sink : EventSink

abbrev pub stop : Text → Loop → Loop
stop message l = record l { returned = true; sink = log_info message l.sink }

abbrev pub greeting : ClientArgs → Text
greeting args =
    text "客户端启动，连接到 "
    ++ args.server
    ++ text " (TLS="
    ++ (if args.tls then text "true" else text "false")
    ++ text ") 身份 "
    ++ args.id

module _ {E : Type 0} (display : E → Text) where
  abbrev pub report : Result E (Unit {0}) → ℕ → EventSink → EventSink
  report (ok _) backoff = log_warn (text "隧道已关闭，" ++ show_duration backoff ++ text " 后重连")
  report (err e) backoff =
      log_error (text "隧道错误：" ++ display e ++ text "；" ++ show_duration backoff ++ text " 后重连")

  -- The sleep that nobody interrupts.
  abbrev pub sleep : Round E → Loop → Loop
  sleep o l = record l {
    backoff = next_backoff o.outcome l.backoff;
    slept = l.slept ++ jitter l.backoff o.factor ∷ [];
    sink = set_state reconnecting l.sink;
  }

  abbrev pub round : Round E → Loop → Loop
  round o l =
      let trying = o.events (set_state connecting l.sink) in
      let reported = record l { sink = report o.outcome l.backoff trying } in
      elim o.cancel [
        | never ↦ sleep o reported
        | before ↦ stop (text "已停止") l
        | during ↦ stop (text "收到停止信号，正在断开") (record l { sink = trying })
        | after ↦ stop (text "已停止") reported
        | sleeping ↦
            stop (text "已停止") (record reported { sink = set_state reconnecting reported.sink })
      ]

  -- The rounds, until the loop returns.
  unfoldable pub rounds : List (Round E) → Loop → Loop
  rounds [] l = l
  rounds (o ∷ os) l = let rest = rounds os (round o l) in if l.returned then l else rest

  unfoldable pub run_supervised : ClientArgs → List (Round E) → EventSink → Loop
  run_supervised args os sink = rounds os (record {
    returned = false;
    backoff = initial_backoff;
    slept = [];
    sink = log_info (greeting args) sink;
  })

  -- The client of the command line, whose events go to stderr only.
  unfoldable pub run : ClientArgs → List (Round E) → Loop
  run args os = run_supervised args os (record { tx = none })
