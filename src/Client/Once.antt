-- ===== src/Client/Once.antt =====
-- The whole of `run_once` of src/client.rs: an attempt, and the session that it begins.
use mini_mask.Common.{ℕ, List, Text, Result, ok, err}
use mini_mask.Client.Events.{ClientArgs, EventSink}
use mini_mask.Client.Attempt.{Network, ClientError, connect}
use mini_mask.Client.Streams.{StreamError, Inbound, run_client_session}
use mini_mask.Client.Supervised.{Round, never}

abbrev pub session_after :
    (show : StreamError → Text)
    → List Inbound
    → Result ClientError (Unit {0}) × EventSink
    → Result ClientError (Unit {0}) × EventSink
session_after show is (err e, sink) = (err e, sink)
session_after show is (ok _, sink) = (ok tt, run_client_session show is sink)

unfoldable pub run_once :
    (show : StreamError → Text)
    → ClientArgs
    → Network
    → List Inbound
    → EventSink
    → Result ClientError (Unit {0}) × EventSink
run_once show args net is sink = session_after show is (connect args net sink)

-- A round of the supervised loop that runs it to its end.
abbrev pub round_of :
    (show : StreamError → Text)
    → ClientArgs
    → Network
    → List Inbound
    → (factor : ℕ) → (sink : EventSink) → Round ClientError
round_of show args net is factor sink = record {
  cancel = never;
  outcome = (run_once show args net is sink).0;
  events = λ s. (run_once show args net is s).1;
  factor = factor;
}
