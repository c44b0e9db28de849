-- ===== src/Stats/History.antt =====
-- The history of src/state.rs keeps the last 120 samples.
use mini_mask.Common.{
  ℕ, ◌≤◌, ◌≡◌, sym, ◌∙◌, ap, map, List, [], ◌∷◌, ◌++◌, length, arith, last_n, last_n_short,
  length-last_n, last_n-append,
}
use mathlib.Core.List.{append-nil, append_assoc}
use mini_mask.Stats.{Sample, Stats, record_sample}

-- One call of `record_sample`: the number of connections that the other tasks have left, the time,
-- and the rates.
pub record Tick : Type 0 where
  pub active : ℕ
  pub now : ℕ
  pub rate_in : ℕ
  pub rate_out : ℕ

abbrev pub sample_of : Tick → Sample
sample_of t = record {
  ts = t.now;
  rate_in = t.rate_in;
  rate_out = t.rate_out;
  active_conns = t.active;
}

abbrev pub record_tick : Tick → Stats → Stats
record_tick t s = record_sample t.now t.rate_in t.rate_out (record s { active_conns = t.active })

unfoldable pub record_ticks : List Tick → Stats → Stats
record_ticks [] s = s
record_ticks (t ∷ ts) s = record_ticks ts (record_tick t s)

history-record_tick :
    (t : Tick) (s : Stats) → (record_tick t s).history ≡ last_n 120 (s.history ++ sample_of t ∷ [])
unfolding record_sample
history-record_tick t s = ground (arith, last_n_short 120 (s.history ++ sample_of t ∷ []))

-- After any run of calls, whatever the counters do in between, the history is the last 120 of all
-- that was there and all that was recorded, in order, if at most 120 were there.
pub history-record_ticks :
    (ts : List Tick) (s : Stats)
    → length s.history ≤ 120
    → (record_ticks ts s).history ≡ last_n 120 (s.history ++ map sample_of ts)
unfolding record_ticks
history-record_ticks [] s h =
    sym (ap (last_n 120) (append-nil s.history) ∙ last_n_short 120 s.history h)
history-record_ticks (t ∷ ts) s h =
    let all = s.history ++ sample_of t ∷ [] in
    let first : (record_tick t s).history ≡ last_n 120 all = history-record_tick t s in
    history-record_ticks ts (record_tick t s) (rw first (length-last_n 120 all))
    ∙ ap (λ (h : List Sample). last_n 120 (h ++ map sample_of ts)) first
    ∙ last_n-append 120 all (map sample_of ts)
    ∙ ap (last_n 120) (append_assoc s.history (sample_of t ∷ []) (map sample_of ts))
