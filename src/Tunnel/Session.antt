-- ===== src/Tunnel/Session.antt =====
-- The session driver: src/tunnel/session.rs.
use mini_mask.Common.{
  ℕ, List, [], ◌∷◌, ◌++◌, none, some, Bool, false, Text, text, text_eq, lookup, insert, remove,
  if◌then◌else◌,
}
use mini_mask.Stats.{fetch_add, fetch_sub}
use mini_mask.State.{Channel, AppState, Deps, log, announce}

-- What `poll_next_inbound` yields.
pub data Inbound : Type 0 where
  stream failed closed : Inbound

-- The loop of `drive_server`: it goes on, it starts a proxy task for a target, or it ends.
pub data Round : Type 0 where
  goes_on ends : Round
  opens : (target : Text) → Round

abbrev pub on_inbound : Inbound → Round
on_inbound stream = goes_on
on_inbound failed = ends
on_inbound closed = ends

-- A request is taken from the channel; `opened` says whether `poll_new_outbound` gives a stream. With
-- no request there is nothing to do: the session's entry or an accept loop still holds a sender.
abbrev pub take_request : Bool → List Text → Round × List Text
take_request opened [] = (goes_on, [])
take_request opened (target ∷ queued) = (if opened then opens target else ends, queued)

abbrev pub with_channel : Text → (Channel → Channel) → AppState → AppState
with_channel session_id f s = elim (lookup session_id s.channels) [
  | none ↦ s
  | some ch ↦ record s { channels = insert session_id (f ch) s.channels }
]

unfoldable pub on_request : Text → Bool → AppState → Round × AppState
on_request session_id opened s = elim (lookup session_id s.channels) [
  | none ↦ (ends, s)
  | some ch ↦
      let (round, queued) = take_request opened ch.queued in
      (round, record s { channels = insert session_id (record ch { queued = queued }) s.channels })
]

-- The start and the end of a spawned proxy task.
unfoldable pub proxy_starts : Text → AppState → AppState
proxy_starts session_id s =
    with_channel session_id (λ ch. record ch { active_conns = fetch_add ch.active_conns 1 })
      (record s {
        stats = record s.stats {
          total_conns = fetch_add s.stats.total_conns 1;
          active_conns = fetch_add s.stats.active_conns 1;
        };
      })

unfoldable pub proxy_ends : Text → AppState → AppState
proxy_ends session_id s =
    with_channel session_id (λ ch. record ch { active_conns = fetch_sub ch.active_conns 1 })
      (record s { stats = record s.stats { active_conns = fetch_sub s.stats.active_conns 1 } })

-- The entry is removed if it is still this session's.
unfoldable pub remove_session : Text → Text → AppState → AppState
remove_session client_id session_id s = elim (lookup client_id s.sessions) [
  | none ↦ s
  | some info ↦
      if text_eq info.session_id session_id
      then record s { sessions = remove client_id s.sessions }
      else s
]

-- The receiving end of the channel is dropped when `drive_server` returns.
abbrev pub close_channel : Text → AppState → AppState
close_channel session_id =
    with_channel session_id (λ ch. record ch { is_open = false; queued = [] })

-- What comes behind the loop of `drive_server`.
unfoldable pub end_session : Deps → ℕ → Text → Text → AppState → AppState
end_session deps now client_id session_id s = close_channel session_id (
    announce (
      log deps now (text "info") (text "tunnel")
        (text "client " ++ client_id ++ text " disconnected")
        (remove_session client_id session_id s)))
