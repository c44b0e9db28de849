-- ===== src/Tunnel/Sound/Tasks.antt =====
-- The accept loops and the session drivers of src/tunnel keep the state sound.
use mini_mask.Common.{
  ℕ, ◌≤◌, List, [], ◌∷◌, Bool, Text, length, lookup, insert, lookup-insert, length-remove-le,
  Option-cases, inl, inr, arith, length-append,
}
use mini_mask.Stats.{Stats}
use mini_mask.State.{AcceptLoop, Channel, AppState, Deps, log, announce}
use mini_mask.Tunnel.Listener.{
  abort, visit, Visit, at_limit, sent, loop_ends, timed_out, channel_capacity, visit_channel,
}
use mini_mask.Tunnel.Session.{
  on_request, proxy_starts, proxy_ends, end_session, with_channel, remove_session, take_request,
}
use mini_mask.Tunnel.Sound.{IsSound}
use mini_mask.Tunnel.Sound.Listeners.{abort-IsSound}

-- A channel is put in place of another, or is new.
pub channel-IsSound :
    (session_id : Text) (new : Channel) (s : AppState)
    → length new.queued ≤ channel_capacity
    → IsSound s
    → IsSound (record s { channels = insert session_id new s.channels })
channel-IsSound session_id new s h v = record {
  few_sessions = v.few_sessions;
  port_once = v.port_once;
  queue_bound =
      λ id ch e. ground (arith, h, v.queue_bound id ch, lookup-insert session_id id new s.channels);
}

pub with_channel-IsSound :
    (session_id : Text) (f : Channel → Channel) (s : AppState)
    → ((ch : Channel) → length (f ch).queued ≤ length ch.queued)
    → IsSound s
    → IsSound (with_channel session_id f s)
with_channel-IsSound session_id f s h v = elim (Option-cases (lookup session_id s.channels)) [
  | inl e ↦ rw (e, with_channel) v
  | inr (ch, e) ↦
      rw (e, with_channel)
        (channel-IsSound session_id (f ch) s (omega (arith, h ch, v.queue_bound session_id ch e)) v)
]

length-visit_channel :
    (max_conns : ℕ) (addr : Text) (ch : Channel)
    → length ch.queued ≤ channel_capacity
    → length (visit_channel max_conns addr ch).1.queued ≤ channel_capacity
length-visit_channel max_conns addr ch h = ground (arith, length-append ch.queued (addr ∷ []))

pub visited-IsSound :
    (outcome : Visit) (number : ℕ) (s : AppState)
    → IsSound s
    → IsSound (elim outcome [ loop_ends ↦ abort number s | _ ↦ s ])
visited-IsSound at_limit number s v = v
visited-IsSound sent number s v = v
visited-IsSound loop_ends number s v = abort-IsSound number s v
visited-IsSound timed_out number s v = v

pub visit-IsSound : (l : AcceptLoop) (s : AppState) → IsSound s → IsSound (visit l s).1
unfolding visit
visit-IsSound l s v = elim (Option-cases (lookup l.session_id s.channels)) [
  | inl e ↦ rw (e, visit) (abort-IsSound l.number s v)
  | inr (ch, e) ↦
      let next = visit_channel s.config.security.max_conns_per_client l.local_addr ch in
      rw (e, visit)
        (visited-IsSound next.0 l.number _ (
          channel-IsSound l.session_id next.1 s
            (length-visit_channel _ l.local_addr ch (v.queue_bound l.session_id ch e)) v))
]

length-take_request :
    (opened : Bool) (queued : List Text) → length (take_request opened queued).1 ≤ length queued
length-take_request opened [] = omega arith
length-take_request opened (t ∷ queued) = omega arith

pub on_request-IsSound :
    (session_id : Text) (opened : Bool) (s : AppState)
    → IsSound s
    → IsSound (on_request session_id opened s).1
unfolding on_request
on_request-IsSound session_id opened s v = elim (Option-cases (lookup session_id s.channels)) [
  | inl e ↦ rw (e, on_request) v
  | inr (ch, e) ↦
      rw (e, on_request)
        (channel-IsSound session_id (record ch { queued = (take_request opened ch.queued).1 }) s
          (omega (arith, length-take_request opened ch.queued, v.queue_bound session_id ch e)) v)
]

-- The counters of the statistics, the log and the messages play no part.
pub stats-IsSound :
    (stats : Stats) (s : AppState) → IsSound s → IsSound (record s { stats = stats })
stats-IsSound stats s v = record {
  few_sessions = v.few_sessions;
  port_once = v.port_once;
  queue_bound = v.queue_bound;
}

pub log-IsSound :
    (deps : Deps) (now : ℕ) (level category message : Text) (s : AppState)
    → IsSound s
    → IsSound (log deps now level category message s)
unfolding log
log-IsSound deps now level category message s v = record {
  few_sessions = v.few_sessions;
  port_once = v.port_once;
  queue_bound = v.queue_bound;
}

pub announce-IsSound : (s : AppState) → IsSound s → IsSound (announce s)
announce-IsSound s v = record {
  few_sessions = v.few_sessions;
  port_once = v.port_once;
  queue_bound = v.queue_bound;
}

pub proxy_starts-IsSound :
    (session_id : Text) (s : AppState) → IsSound s → IsSound (proxy_starts session_id s)
unfolding proxy_starts
proxy_starts-IsSound session_id s v =
    with_channel-IsSound session_id _ _ (λ ch. omega arith) (stats-IsSound _ s v)

pub proxy_ends-IsSound :
    (session_id : Text) (s : AppState) → IsSound s → IsSound (proxy_ends session_id s)
unfolding proxy_ends
proxy_ends-IsSound session_id s v =
    with_channel-IsSound session_id _ _ (λ ch. omega arith) (stats-IsSound _ s v)

pub remove_session-IsSound :
    (client_id session_id : Text) (s : AppState)
    → IsSound s
    → IsSound (remove_session client_id session_id s)
unfolding remove_session
remove_session-IsSound client_id session_id s v =
    elim (Option-cases (lookup client_id s.sessions)) [
      | inl e ↦ rw (e, remove_session) v
      | inr (info, e) ↦ record {
        few_sessions = ground (arith, v.few_sessions, length-remove-le client_id s.sessions);
        port_once = λ p. ground (arith, v.port_once p);
        queue_bound = λ id ch h. ground (arith, v.queue_bound id ch);
      }
    ]

pub end_session-IsSound :
    (deps : Deps) (now : ℕ) (client_id session_id : Text) (s : AppState)
    → IsSound s
    → IsSound (end_session deps now client_id session_id s)
unfolding end_session
end_session-IsSound deps now client_id session_id s v =
    with_channel-IsSound session_id _ _ (λ ch. omega arith)
      (announce-IsSound _
        (log-IsSound deps now _ _ _ _ (remove_session-IsSound client_id session_id s v)))
