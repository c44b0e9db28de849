-- ===== src/Tunnel/Sound/Listeners.antt =====
-- The listeners of src/tunnel/listener.rs keep the state sound.
use mini_mask.Common.{
  ℕ, ◌≡◌, refl, List, [], ◌∷◌, some, Bool, false, not, Text, length, any, retain, count_by,
  count_by-append, count_by-retain-le, lookup, insert, remove, length-insert_old, Option-cases, inl,
  inr, ◌==◌, arith,
}
use mini_mask.Store.Model.{PortMapping, find_client}
use mini_mask.State.{SessionInfo, AppState, holds_port}
use mini_mask.Tunnel.Listener.{
  find_listener, add_listener, add_listeners, start_client_listeners, remove_listener,
  remove_client_listeners, abort, abort_all, new_loop,
}
use mini_mask.Tunnel.Sound.{IsSound}

any_none {ℓ} : {A : Type ℓ} (p : A → Bool) (xs : List A) → any p xs ≡ false → count_by p xs ≡ 0
any_none p [] h = refl
any_none p (x ∷ xs) h = ground (arith, any_none p xs)

pub add_listener-IsSound :
    (client_id : Text) (m : PortMapping) (s : AppState)
    → IsSound s
    → IsSound (add_listener client_id m s).1
unfolding add_listener
add_listener-IsSound client_id m s v = elim (Option-cases (lookup client_id s.sessions)) [
  | inl e ↦ rw (e, add_listener) v
  | inr (info, e) ↦ record {
    few_sessions = ground (
      arith,
      v.few_sessions,
      length-insert_old client_id
          (record info { listeners = insert m.id s.next_loop info.listeners }) info s.sessions e,
    );
    port_once = λ p. ground (
      arith,
      v.port_once p,
      count_by-append (holds_port p) s.loops (new_loop s.next_loop info m ∷ []),
      any_none (holds_port m.remote_port) s.loops,
    );
    queue_bound = λ id ch h. ground (arith, v.queue_bound id ch);
  }
]

pub add_listeners-IsSound :
    (client_id : Text) (ms : List PortMapping) (s : AppState)
    → IsSound s
    → IsSound (add_listeners client_id ms s)
add_listeners-IsSound client_id [] s v = v
add_listeners-IsSound client_id (m ∷ ms) s v =
    add_listeners-IsSound client_id ms (add_listener client_id m s).1
      (add_listener-IsSound client_id m s v)

pub start_client_listeners-IsSound :
    (client_id : Text) (s : AppState) → IsSound s → IsSound (start_client_listeners client_id s)
unfolding start_client_listeners
start_client_listeners-IsSound client_id s v =
    elim (Option-cases (find_client client_id s.clients)) [
      | inl e ↦ rw (e, start_client_listeners) v
      | inr (client, e) ↦
          rw (e, start_client_listeners)
            (add_listeners-IsSound client_id (retain (λ m. m.enabled) client.mappings) s v)
    ]

pub abort-IsSound : (number : ℕ) (s : AppState) → IsSound s → IsSound (abort number s)
abort-IsSound number s v = record {
  few_sessions = v.few_sessions;
  port_once = λ p. ground (
    arith,
    v.port_once p,
    count_by-retain-le (holds_port p) (λ l. not (l.number == number)) s.loops,
  );
  queue_bound = v.queue_bound;
}

pub abort_all-IsSound :
    (handles : List (Text × ℕ)) (s : AppState) → IsSound s → IsSound (abort_all handles s)
abort_all-IsSound [] s v = v
abort_all-IsSound ((_, number) ∷ handles) s v =
    abort_all-IsSound handles (abort number s) (abort-IsSound number s v)

-- A session's entry is put in place of another.
pub replace-IsSound :
    (client_id : Text) (old new : SessionInfo) (s : AppState)
    → lookup client_id s.sessions ≡ some old
    → IsSound s
    → IsSound (record s { sessions = insert client_id new s.sessions })
replace-IsSound client_id old new s e v = record {
  few_sessions = ground (arith, v.few_sessions, length-insert_old client_id new old s.sessions e);
  port_once = v.port_once;
  queue_bound = v.queue_bound;
}

pub remove_client_listeners-IsSound :
    (client_id : Text) (s : AppState) → IsSound s → IsSound (remove_client_listeners client_id s)
unfolding remove_client_listeners
remove_client_listeners-IsSound client_id s v = elim (Option-cases (lookup client_id s.sessions)) [
  | inl e ↦ rw (e, remove_client_listeners) v
  | inr (info, e) ↦
      rw (e, remove_client_listeners)
        (abort_all-IsSound info.listeners _
          (replace-IsSound client_id info (record info { listeners = [] }) s e v))
]

-- The length of a table after an entry that the search found is replaced is the same.
length-replace_listener :
    (mapping_id : Text) (new : SessionInfo → SessionInfo) (m : List (Text × SessionInfo))
    (client_id : Text) (info : SessionInfo) (number : ℕ)
    → find_listener mapping_id m ≡ some (client_id, info, number)
    → length (insert client_id (new info) m) ≡ length m
length-replace_listener mapping_id new [] client_id info number h = cc
length-replace_listener mapping_id new ((j, i) ∷ m) client_id info number h =
    ground (arith, length-replace_listener mapping_id new m client_id info number)

pub remove_listener-IsSound :
    (mapping_id : Text) (s : AppState) → IsSound s → IsSound (remove_listener mapping_id s)
unfolding remove_listener
remove_listener-IsSound mapping_id s v = elim (Option-cases (find_listener mapping_id s.sessions)) [
  | inl e ↦ rw (e, remove_listener) v
  | inr ((client_id, info, number), e) ↦
      rw (e, remove_listener)
        (abort-IsSound number _ (record {
          few_sessions = ground (
            arith,
            v.few_sessions,
            length-replace_listener mapping_id
                (λ i. record i { listeners = remove mapping_id i.listeners }) s.sessions client_id
                info number e,
          );
          port_once = v.port_once;
          queue_bound = v.queue_bound;
        }))
]
