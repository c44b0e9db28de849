-- ===== src/Stats/Sampler.antt =====
-- `stats_sampler` of src/server.rs: one tick a second.
use mini_mask.Common.{ℕ, ◌+◌, ◌-◌, Bool, false, ◌||◌, Text, leb, ltb, if◌then◌else◌}
use mini_mask.Stats.{Stats, record_sample}
use mini_mask.Broadcast.{WsBroadcaster, subscriber_count, broadcast}

-- The local variables of the loop.
pub record Sampler : Type 0 where
  pub prev_in : ℕ
  pub prev_out : ℕ
  pub idle_ticks : ℕ
  pub has_subs : Bool

unfoldable pub start_sampler : Stats → Sampler
start_sampler s = record {
  prev_in = s.bytes_in;
  prev_out = s.bytes_out;
  idle_ticks = 0;
  has_subs = false;
}

-- The middle of a round: whether somebody watches is looked up, or the idle ticks go on.
abbrev pub refresh : Sampler → WsBroadcaster → Sampler × WsBroadcaster
refresh v b =
    if v.has_subs || leb 5 v.idle_ticks
    then (let (n, b') = subscriber_count b in (record v { has_subs = ltb 0 n; idle_ticks = 0 }, b'))
    else (record v { idle_ticks = v.idle_ticks + 1 }, b)

-- One round of the loop. `message` is what `build_stats_message` makes of the state.
unfoldable pub tick :
    (now : ℕ) (message : Stats → Text)
    → Sampler × Stats × WsBroadcaster
    → Sampler × Stats × WsBroadcaster
tick now message (v, s, b) =
    let s' = record_sample now (s.bytes_in - v.prev_in) (s.bytes_out - v.prev_out) s in
    let (v', b') = refresh (record v { prev_in = s.bytes_in; prev_out = s.bytes_out }) b in
    (v', s', (if v'.has_subs then broadcast (message s') b' else b'))
