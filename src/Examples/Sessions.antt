-- ===== src/Examples/Sessions.antt =====
-- The theorems about the sessions of src/tunnel at work.
use mini_mask.Common.{
  ◌≡◌, refl, inr, [], ◌∷◌, none, some, false, arith, lookup, count_by, text_discrete, ℕ_discrete,
}
use mini_mask.Config.{default_config, default_security}
use mini_mask.Tunnel.Listener.{add_listener, remove_client_listeners, visit, loop_ends}
use mini_mask.Tunnel.Session.{end_session, remove_session}
use mini_mask.Tunnel.Handshake.{register}
use mini_mask.Tunnel.Stopping.{
  has_number, remove_client_listeners-stops, end_session-port_bound, visit-end_session,
  remove_session-register,
}
use mini_mask.Examples.Given.{
  plain_deps, connected, alice_calls, alice_session, alice_loop, alice_channel, web,
}

remove_client_listeners_example :
    let t = remove_client_listeners (b'a' ∷ []) connected in
    (count_by (has_number 0) t.loops ≡ 0)
    × (lookup (b'a' ∷ []) t.sessions ≡ some (record alice_session { listeners = [] }))
remove_client_listeners_example =
    remove_client_listeners-stops (b'a' ∷ []) (b'w' ∷ []) 0 alice_session connected
      (unfold text_discrete ℕ_discrete in refl) (unfold text_discrete ℕ_discrete in refl)

end_session_example :
    let t = end_session plain_deps 9 (b'a' ∷ []) (b's' ∷ []) connected in
    (t.loops ≡ connected.loops) × ((add_listener (b'a' ∷ []) web t).0 ≡ false)
end_session_example =
    end_session-port_bound plain_deps 9 (b'a' ∷ []) (b's' ∷ []) (b'a' ∷ []) web connected refl

visit_example :
    let t = end_session plain_deps 9 (b'a' ∷ []) (b's' ∷ []) connected in
    ((visit alice_loop t).0 ≡ loop_ends)
    × (count_by (has_number 0) (visit alice_loop t).1.loops ≡ 0)
visit_example =
    visit-end_session plain_deps 9 (b'a' ∷ []) alice_loop alice_channel connected
      (unfold text_discrete ℕ_discrete in refl)
      (inr (unfold default_config default_security in omega arith))

register_example :
    let t = (register (b'a' ∷ []) alice_calls connected).1 in
    (remove_session (b'a' ∷ []) (b'o' ∷ []) t ≡ t)
    × (lookup (b'a' ∷ []) (remove_session (b'a' ∷ []) (b's' ∷ []) t).sessions ≡ none)
register_example =
    remove_session-register (b'a' ∷ []) alice_calls (b'o' ∷ []) connected
      (unfold default_config default_security in omega arith) (λ h. ground arith)
