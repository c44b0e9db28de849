-- ===== src/Client/Events.antt =====
-- What the client of src/client.rs reports.
use mini_mask.Common.{List, [], ◌∷◌, ◌++◌, Option, none, some, Bool, Text}

pub record ClientArgs : Type 0 where
  pub server : Text
  pub id : Text
  pub token : Text
  pub tls : Bool
  pub server_name : Text
  pub ca_path : Text
  pub insecure_skip_verify : Bool

pub data LogLevel : Type 0 where
  info warn error : LogLevel

pub data ConnState : Type 0 where
  connecting connected reconnecting : ConnState

pub data ClientEvent : Type 0 where
  log : LogLevel → (message : Text) → ClientEvent
  state : ConnState → ClientEvent

-- A sink with a channel holds what was sent; the lines on stderr are left out.
pub record EventSink : Type 0 where
  pub tx : Option (List ClientEvent)

abbrev pub send : ClientEvent → EventSink → EventSink
send e sink = elim sink.tx [ none ↦ sink | some sent ↦ record sink { tx = some (sent ++ e ∷ []) } ]

abbrev pub log_info : Text → EventSink → EventSink
log_info message = send (log info message)

abbrev pub log_warn : Text → EventSink → EventSink
log_warn message = send (log warn message)

abbrev pub log_error : Text → EventSink → EventSink
log_error message = send (log error message)

abbrev pub set_state : ConnState → EventSink → EventSink
set_state s = send (state s)
