-- ===== src/Client/Backoff.antt =====
-- How long the client of src/client.rs waits between two attempts, and how it stops.
use mini_mask.Common.{
  ℕ, suc, ◌*◌, ◌^◌, ◌≤◌, ◌≡◌, refl, ap, sym, ◌∙◌, min, List, [], ◌∷◌, ◌++◌, Bool, false, Text,
  Result, ok, err, All, arith, if◌then◌else◌,
}
use mathlib.Core.Path.{subst}
use native.Mathlib.Nat.{le_trans, pow-suc, mul-le-mul, div-le_of_le-mul}
use mini_mask.Client.Events.{ClientArgs, EventSink, set_state, connecting}
use mini_mask.Client.Supervised.{
  never, Round, Loop, jitter, initial_backoff, max_backoff, next_backoff, round, rounds, sleep,
  report, run_supervised,
}

-- The back-off after `n` failures in a row.
abbrev pub backoff_after : ℕ → ℕ
backoff_after n = min (initial_backoff * 2 ^ n) max_backoff

double : (p : ℕ) → min (min (500 * p) 30_000 * 2) 30_000 ≡ min (500 * (p * 2)) 30_000
double p = omega arith

pow_two : (n : ℕ) → 2 ^ n * 2 ≡ 2 ^ suc n
pow_two n = sym (pow-suc 2 n)

next_backoff-after :
    {E : Type 0} (n : ℕ) (e : E) → next_backoff (err e) (backoff_after n) ≡ backoff_after (suc n)
next_backoff-after n e = double (2 ^ n) ∙ ap (λ (p : ℕ). min (500 * p) 30_000) (pow_two (n))

jitter-le : (d factor : ℕ) → d ≤ 30_000 → factor ≤ 1_100_000_000 → jitter d factor ≤ 33_000
unfolding jitter
jitter-le d factor h k = div-le_of_le-mul 1_000_000_000 (le_trans (mul-le-mul h k) (omega arith))

module _ {E : Type 0} where
  -- How many attempts have failed in a row, if it were `n` before these rounds.
  unfoldable pub streak : ℕ → List (Round E) → ℕ
  streak n [] = n
  streak n (o ∷ os) = streak (elim o.outcome [ ok _ ↦ 0 | err _ ↦ suc n ]) os

  -- Nobody cancels the round, and the factor of its sleep is at most 1.1.
  pub record IsSteady (o : Round E) : Type 0 where
    pub uncancelled : o.cancel ≡ never
    pub factor_bound : o.factor ≤ 1_100_000_000

module _ {E : Type 0} (display : E → Text) where
  -- The loop of a client whose last `n` attempts have failed.
  record Failed (n : ℕ) (l : Loop) : Type 0 where
    running : l.returned ≡ false
    grown : l.backoff ≡ backoff_after n
    bounded : All (λ ms. ms ≤ 33_000) l.slept

  All-snoc :
      (xs : List ℕ) (x : ℕ)
      → All (λ ms. ms ≤ 33_000) xs
      → x ≤ 33_000
      → All (λ ms. ms ≤ 33_000) (xs ++ x ∷ [])
  All-snoc [] x h k = (k, tt)
  All-snoc (y ∷ ys) x (h, hs) k = (h, All-snoc ys x hs k)

  sleep-bound :
      (n : ℕ) (o : Round E) (l : Loop)
      → IsSteady o
      → Failed n l
      → All (λ ms. ms ≤ 33_000) (l.slept ++ jitter l.backoff o.factor ∷ [])
  sleep-bound n o l v f =
      All-snoc l.slept (jitter l.backoff o.factor) f.bounded
        (jitter-le l.backoff o.factor (rw f.grown (omega arith)) v.factor_bound)

  -- A steady round behind `n` failures.
  round-Failed :
      (n : ℕ) (o : Round E) (l : Loop)
      → IsSteady o
      → Failed n l
      → Failed (elim o.outcome [ ok _ ↦ 0 | err _ ↦ suc n ]) (round display o l)
  round-Failed n o l v f = rw v.uncancelled (by_outcome o.outcome)
    where
      slept : All (λ ms. ms ≤ 33_000) (l.slept ++ jitter l.backoff o.factor ∷ [])
      slept = sleep-bound n o l v f

      by_outcome :
          (r : Result E (Unit {0}))
          → Failed
              (elim r [ ok _ ↦ 0 | err _ ↦ suc n ])
              (sleep display
                (record o { outcome = r })
                (record l {
                  sink = report display r l.backoff (o.events (set_state connecting l.sink));
                }))
      by_outcome (ok _) = record { running = f.running; grown = refl; bounded = slept }
      by_outcome (err e) = record {
        running = f.running;
        grown = ap (next_backoff (err e)) f.grown ∙ next_backoff-after n e;
        bounded = slept;
      }

  rounds_running :
      (o : Round E) (os : List (Round E)) (l : Loop)
      → l.returned ≡ false
      → rounds display (o ∷ os) l ≡ rounds display os (round display o l)
  unfolding rounds
  rounds_running o os l h =
      ap (λ (b : Bool). if b then l else rounds display os (round display o l)) h

  rounds-Failed :
      (n : ℕ) (os : List (Round E)) (l : Loop)
      → All IsSteady os
      → Failed n l
      → Failed (streak n os) (rounds display os l)
  unfolding rounds streak
  rounds-Failed n [] l vs f = f
  rounds-Failed n (o ∷ os) l (v, vs) f =
      subst (Failed (streak n (o ∷ os))) (sym (rounds_running o os l f.running)) (
        rounds-Failed (elim o.outcome [ ok _ ↦ 0 | err _ ↦ suc n ]) os (round display o l) vs
          (round-Failed n o l v f))

  -- As long as nobody cancels, the loop goes on; after any rounds its back-off is half a second,
  -- doubled for each attempt that has failed since the last one that succeeded, and at most 30 s;
  -- and no sleep is longer than 33 s, if no random factor is above 1.1.
  pub run_supervised-backoff :
      (args : ClientArgs) (os : List (Round E)) (sink : EventSink)
      → All IsSteady os
      → let l = run_supervised display args os sink in
        (l.returned ≡ false)
        × (l.backoff ≡ backoff_after (streak 0 os))
        × All (λ ms. ms ≤ 33_000) l.slept
  unfolding run_supervised
  run_supervised-backoff args os sink vs =
      let f = rounds-Failed 0 os _ vs (record { running = refl; grown = refl; bounded = tt }) in
      (f.running, f.grown, f.bounded)
