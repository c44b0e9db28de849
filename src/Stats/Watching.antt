-- ===== src/Stats/Watching.antt =====
-- How soon `stats_sampler` of src/server.rs notices a dashboard.
use mini_mask.Common.{ℕ, suc, ◌+◌, ◌-◌, ◌≤◌, ◌≡◌, List, [], ◌∷◌, true, false, Text, length, arith}
use mini_mask.Stats.{Stats, record_sample}
use mini_mask.Stats.Sampler.{Sampler, tick}
use mini_mask.Broadcast.{WsBroadcaster, subscriber_count}
use mini_mask.Broadcast.Delivery.{has_open, has_open-broadcast, subscriber_count-has_open}

unfoldable pub ticks :
    List ℕ → (Stats → Text) → Sampler × Stats × WsBroadcaster → Sampler × Stats × WsBroadcaster
ticks [] message x = x
ticks (now ∷ later) message x = ticks later message (tick now message x)

-- Somebody watches, and this is known or will be looked up within `n` ticks.
record Noticed (n : ℕ) (x : Sampler × Stats × WsBroadcaster) : Type 0 where
  watched : has_open x.2 ≡ true
  low : x.0.idle_ticks ≤ 5
  soon : x.0.has_subs ≡ false → 6 ≤ x.0.idle_ticks + n

tick-Noticed :
    (n now : ℕ) (message : Stats → Text) (x : Sampler × Stats × WsBroadcaster)
    → Noticed (suc n) x
    → Noticed n (tick now message x)
unfolding tick
tick-Noticed n now message (v, s, b) h =
    let s' = record_sample now (s.bytes_in - v.prev_in) (s.bytes_out - v.prev_out) s in
    let counted = (subscriber_count b).1 in
    ground (
      arith,
      subscriber_count-has_open b h.watched,
      has_open-broadcast (message s') counted,
      has_open-broadcast (message s') b,
    )

ticks-Noticed :
    (times : List ℕ) (message : Stats → Text) (x : Sampler × Stats × WsBroadcaster)
    → Noticed (length times) x
    → Noticed 0 (ticks times message x)
unfolding ticks
ticks-Noticed [] message x h = h
ticks-Noticed (now ∷ later) message x h =
    ticks-Noticed later message (tick now message x) (tick-Noticed (length later) now message x h)

-- With a subscriber that stays, six rounds of the sampler or more end with it known that somebody is
-- watching; the counter of idle ticks must be at most 5, as it is at the start and after each round.
pub ticks-has_subs :
    (times : List ℕ) (message : Stats → Text) (x : Sampler × Stats × WsBroadcaster)
    → 6 ≤ length times
    → has_open x.2 ≡ true
    → x.0.idle_ticks ≤ 5
    → (ticks times message x).0.has_subs ≡ true
ticks-has_subs times message x h w l =
    known (ticks times message x)
      (ticks-Noticed times message x (record { watched = w; low = l; soon = λ _. omega arith }))
  where
    known : (y : Sampler × Stats × WsBroadcaster) → Noticed 0 y → y.0.has_subs ≡ true
    known y v = ground (arith, v.soon, v.low)
