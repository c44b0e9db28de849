-- ===== src/Gui/Attempts.antt =====
-- What the window of src/gui.rs shows of the attempts of `run_supervised` in src/client.rs.
use mini_mask.Common.{
  ℕ, ◌+◌, ◌%◌, ◌^◌, ◌≡◌, refl, ap, ◌∙◌, List, [], ◌∷◌, some, Bool, false, Text, length, All, arith,
  length-append, if◌then◌else◌,
}
use mini_mask.Client.Events.{ClientArgs, EventSink}
use mini_mask.Client.Attempt.{Network, ClientError}
use mini_mask.Client.Streams.{StreamError, Inbound}
use mini_mask.Client.Supervised.{Round, Loop, jitter, round, rounds, run_supervised}
use mini_mask.Client.Once.{round_of}
use mini_mask.Gui.App.{App, drained, pump_events}
use mini_mask.Gui.Reconnects.{IsPlain, heard, reconnects-run_supervised}
use mini_mask.Gui.Quiet.{round_of-IsPlain}

-- An attempt: the network, the streams of the session, and the random factor of the sleep after it.
pub record Attempt : Type 0 where
  pub net : Network
  pub streams : List Inbound
  pub factor : ℕ

unfoldable pub channel : EventSink
channel = record { tx = some [] }

module _ (show : StreamError → Text) (args : ClientArgs) where
  abbrev pub attempt_round : Attempt → Round ClientError
  attempt_round t = round_of show args t.net t.streams t.factor channel

  abbrev pub attempt_rounds : List Attempt → List (Round ClientError)
  attempt_rounds [] = []
  attempt_rounds (t ∷ ts) = attempt_round t ∷ attempt_rounds ts

  attempt_rounds-IsPlain : (ts : List Attempt) → All IsPlain (attempt_rounds ts)
  attempt_rounds-IsPlain [] = tt
  attempt_rounds-IsPlain (t ∷ ts) =
      (round_of-IsPlain show args t.net t.streams t.factor channel, attempt_rounds-IsPlain ts)

  slept-rounds :
      (display : ClientError → Text) (ts : List Attempt) (l : Loop)
      → l.returned ≡ false
      → length (rounds display (attempt_rounds ts) l).slept ≡ length l.slept + length ts
  unfolding rounds
  slept-rounds display [] l h = omega arith
  slept-rounds display (t ∷ ts) l h =
      ap
        (λ (b : Bool).
          length
            (if b
              then l
              else rounds display (attempt_rounds ts) (round display (attempt_round t) l)).slept)
        h
      ∙ omega (
        arith,
        slept-rounds display ts (round display (attempt_round t) l) h,
        length-append l.slept (jitter l.backoff t.factor ∷ []),
      )

-- While nobody cancels the client, a window that started it with the counter at 0 and has read all its
-- events shows as many reconnections as attempts have ended, modulo 2^32, however each of them ended
-- and whatever streams its session had.
pub reconnects-attempts :
    (show : StreamError → Text) (display : ClientError → Text) (args : ClientArgs)
    (ts : List Attempt) (clock : ℕ → Text) (a : App)
    → a.reconnects ≡ 0
    → drained a.running
      ≡ heard (run_supervised display args (attempt_rounds show args ts) channel).sink
    → (pump_events clock a).reconnects ≡ length ts % 2 ^ 32
unfolding run_supervised channel
reconnects-attempts show display args ts clock a zeroed all =
    reconnects-run_supervised display args (attempt_rounds show args ts) clock a
      (attempt_rounds-IsPlain show args ts) zeroed all
    ∙ ap (λ (k : ℕ). k % 2 ^ 32) (slept-rounds show args display ts _ refl ∙ omega arith)
