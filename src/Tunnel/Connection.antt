-- ===== src/Tunnel/Connection.antt =====
-- A connection from its acceptance on: `handle_tunnel` of src/tunnel/listener.rs with TLS and the two
-- time limits, up to the point where the session is driven.
use mini_mask.Common.{Bool, true, false, Text, Result, ok, err}
use mini_mask.Tunnel.Wire.{Writer}
use mini_mask.State.{AppState, Deps}
use mini_mask.Tunnel.Handshake.{Peer, Refusal, handle_tunnel}

-- What `acc.accept(stream)` gives within 15 seconds.
pub data TlsAccept : Type 0 where
  shaken tls_failed tls_timed_out : TlsAccept

-- A connection, with how its TLS handshake goes if there is one, and whether the whole tunnel
-- handshake arrives within 15 seconds.
pub record Connection : Type 0 where
  pub tls_accept : TlsAccept
  pub in_time : Bool
  pub peer : Peer

pub data ConnectionError : Type 0 where
  no_tls tls_timeout read_timeout : ConnectionError
  refused : Refusal → ConnectionError

abbrev pub to_connection_error :
    Result Refusal Text × Writer × AppState → Result ConnectionError Text × Writer × AppState
to_connection_error (ok client_id, w, s) = (ok client_id, w, s)
to_connection_error (err e, w, s) = (err (refused e), w, s)

abbrev pub handshake_in_time :
    Deps
    → Connection
    → AppState
    → (in_time : Bool) → Result ConnectionError Text × Writer × AppState
handshake_in_time deps c s true = to_connection_error (handle_tunnel deps c.peer s)
handshake_in_time deps c s false = (err read_timeout, c.peer.stream, s)

abbrev pub accept_tls :
    Deps → Connection → AppState → TlsAccept → Result ConnectionError Text × Writer × AppState
accept_tls deps c s shaken = handshake_in_time deps c s c.in_time
accept_tls deps c s tls_failed = (err no_tls, c.peer.stream, s)
accept_tls deps c s tls_timed_out = (err tls_timeout, c.peer.stream, s)

-- `tls` tells whether there is an acceptor; without one the stream is taken as it is.
unfoldable pub handle_connection :
    Deps → (tls : Bool) → Connection → AppState → Result ConnectionError Text × Writer × AppState
handle_connection deps true c s = accept_tls deps c s c.tls_accept
handle_connection deps false c s = handshake_in_time deps c s c.in_time

module _ (P : AppState → Type 0) (deps : Deps) (c : Connection) (s : AppState) (v : P s)
    (after : P (handle_tunnel deps c.peer s).2) where
  to_connection_error-keeps :
      (x : Result Refusal Text × Writer × AppState) → P x.2 → P (to_connection_error x).2
  to_connection_error-keeps (ok client_id, w, t) h = h
  to_connection_error-keeps (err e, w, t) h = h

  handshake_in_time-keeps : (b : Bool) → P (handshake_in_time deps c s b).2
  handshake_in_time-keeps true = to_connection_error-keeps (handle_tunnel deps c.peer s) after
  handshake_in_time-keeps false = v

  accept_tls-keeps : (r : TlsAccept) → P (accept_tls deps c s r).2
  accept_tls-keeps shaken = handshake_in_time-keeps c.in_time
  accept_tls-keeps tls_failed = v
  accept_tls-keeps tls_timed_out = v

  -- What holds before a connection and after its handshake holds when the connection is dropped
  -- early, too.
  pub handle_connection-keeps : (tls : Bool) → P (handle_connection deps tls c s).2
  unfolding handle_connection
  handle_connection-keeps true = accept_tls-keeps c.tls_accept
  handle_connection-keeps false = handshake_in_time-keeps c.in_time
