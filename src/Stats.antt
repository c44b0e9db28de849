-- ===== src/Stats.antt =====
-- The live counters and the history of src/state.rs, and the sampler of src/server.rs.
pub mod History
pub mod Sampler
pub mod Watching
use mini_mask.Common.{ℕ, ◌+◌, ◌-◌, ◌%◌, ◌^◌, List, [], ◌∷◌, ◌++◌, length, drop, ltb, if◌then◌else◌}

pub record Sample : Type 0 where
  pub ts : ℕ
  pub rate_in : ℕ
  pub rate_out : ℕ
  pub active_conns : ℕ

pub record Stats : Type 0 where
  pub bytes_out : ℕ
  pub bytes_in : ℕ
  pub total_conns : ℕ
  pub active_conns : ℕ
  pub history : List Sample

pub record StatsSnapshot : Type 0 where
  pub bytes_in : ℕ
  pub bytes_out : ℕ
  pub total_conns : ℕ
  pub active_conns : ℕ

abbrev pub u64_mod : ℕ
u64_mod = 2 ^ 64

-- `AtomicU64::fetch_add` and `fetch_sub` wrap around.
abbrev pub fetch_add : ℕ → ℕ → ℕ
fetch_add counter n = (counter + n) % u64_mod

abbrev pub fetch_sub : ℕ → ℕ → ℕ
fetch_sub counter n = (counter + u64_mod - n) % u64_mod

unfoldable pub snapshot : Stats → StatsSnapshot
snapshot s = record {
  bytes_in = s.bytes_in;
  bytes_out = s.bytes_out;
  total_conns = s.total_conns;
  active_conns = s.active_conns;
}

unfoldable pub record_sample : ℕ → ℕ → ℕ → Stats → Stats
record_sample now rate_in rate_out s =
    let sample : Sample = record {
      ts = now;
      rate_in = rate_in;
      rate_out = rate_out;
      active_conns = s.active_conns;
    } in
    let h = s.history ++ sample ∷ [] in
    record s { history = (if ltb 120 (length h) then drop (length h - 120) h else h) }
