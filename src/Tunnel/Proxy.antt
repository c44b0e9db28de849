-- ===== src/Tunnel/Proxy.antt =====
-- The proxying of bytes: src/tunnel/proxy.rs.
use mini_mask.Common.{
  ℕ, ◌+◌, ◌%◌, ◌≡◌, ◌<◌, refl, ap, sym, ◌∙◌, List, [], ◌∷◌, ◌++◌, Result, ok, err, length,
  length-append, take, arith,
}
use mathlib.Core.List.{append_assoc, append-nil}
use mini_mask.Stats.{u64_mod, fetch_add}
use mini_mask.Tunnel.Wire.{Error, Writer, ◌>>◌, write_all, flush}
use mini_mask.Tunnel.Wire.Emits.{write_all-Emits, flush-Emits}

-- What a read gives: a chunk, which is empty at the end of the stream, an error, or nothing for as long
-- as `PROXY_IDLE_TIMEOUT`.
pub data Reading : Type 0 where
  chunk : List ℕ → Reading
  read_failed idle : Reading

pub data CopyError : Type 0 where
  not_read timed_out : CopyError
  not_written : Error → CopyError

-- The rest of a round, once a chunk was written or not; a chunk that was written is counted.
abbrev pub counted :
    List ℕ
    → Result Error (Unit {0}) × Writer
    → ℕ
    → (Writer → ℕ → Result CopyError (Unit {0}) × Writer × ℕ)
    → Result CopyError (Unit {0}) × Writer × ℕ
counted bs (err e, w) counter next = (err (not_written e), w, counter)
counted bs (ok _, w) counter next = next w (fetch_add counter (length bs))

-- The loop, by what the reads give; past the end of the list the stream has ended. The total that the
-- source returns beside is not used by its callers.
unfoldable pub copy_count : List Reading → Writer → ℕ → Result CopyError (Unit {0}) × Writer × ℕ
copy_count [] w counter = (ok tt, w, counter)
copy_count (read_failed ∷ rs) w counter = (err not_read, w, counter)
copy_count (idle ∷ rs) w counter = (err timed_out, w, counter)
copy_count (chunk [] ∷ rs) w counter = (ok tt, w, counter)
copy_count (chunk (b ∷ bs) ∷ rs) w counter =
    counted (b ∷ bs) ((write_all (b ∷ bs) >> flush) w) counter (λ w' c. copy_count rs w' c)

-- All that the reads give up to the end of the stream.
unfoldable pub bytes_read : List Reading → List ℕ
bytes_read (chunk (b ∷ bs) ∷ rs) = (b ∷ bs) ++ bytes_read rs
bytes_read _ = []

-- What a run delivers: whole chunks, which are counted, and perhaps a front part of one more.
pub record Copied (rs : List Reading) (w : Writer) (counter : ℕ)
    (x : Result CopyError (Unit {0}) × Writer × ℕ) : Type 0 where
  pub whole : List ℕ
  pub part : List ℕ
  pub out : x.1.out ≡ w.out ++ (whole ++ part)
  pub count : x.2 ≡ (counter + length whole) % u64_mod
  pub all : x.0 ≡ ok tt → (whole ≡ bytes_read rs) × (part ≡ [])

nothing-Copied :
    (rs : List Reading) (w : Writer) (counter : ℕ) (r : Result CopyError (Unit {0}))
    → counter < u64_mod
    → (r ≡ ok tt → bytes_read rs ≡ [])
    → Copied rs w counter (r, w, counter)
nothing-Copied rs w counter r h e = record {
  whole = [];
  part = [];
  out = sym (append-nil w.out);
  count = omega (arith, h);
  all = λ d. (sym (e d), refl);
}

counted-Copied :
    (b : ℕ) (bs : List ℕ) (rs : List Reading) (w : Writer) (counter : ℕ)
    (x : Result Error (Unit {0}) × Writer)
    (next : Writer → ℕ → Result CopyError (Unit {0}) × Writer × ℕ)
    → counter < u64_mod
    → (x.0 ≡ ok tt → x.1.out ≡ w.out ++ (b ∷ bs))
    → ((e : Error) → x.0 ≡ err e → (k : ℕ) × (x.1.out ≡ w.out ++ take k (b ∷ bs)))
    → ((v : Writer) (c : ℕ) → c < u64_mod → Copied rs v c (next v c))
    → Copied (chunk (b ∷ bs) ∷ rs) w counter (counted (b ∷ bs) x counter next)
unfolding bytes_read
counted-Copied b bs rs w counter (err e, v) next h f g rec =
    let (k, partial) = g e refl in
    record {
      whole = [];
      part = take k (b ∷ bs);
      out = partial;
      count = omega (arith, h);
      all = λ d. absurd (cc);
    }
counted-Copied b bs rs w counter (ok tt, v) next h f g rec =
    let c = fetch_add counter (length (b ∷ bs)) in
    let later = rec v c (omega arith) in
    record {
      whole = (b ∷ bs) ++ later.whole;
      part = later.part;
      out =
          later.out
          ∙ ap (λ (t : List ℕ). t ++ (later.whole ++ later.part)) (f refl)
          ∙ append_assoc w.out (b ∷ bs) (later.whole ++ later.part)
          ∙ sym (ap (◌++◌ w.out) (append_assoc (b ∷ bs) later.whole later.part));
      count = later.count ∙ omega (arith, length-append (b ∷ bs) later.whole);
      all = λ d. (ap (◌++◌ (b ∷ bs)) (later.all d).0, (later.all d).1);
    }

-- Whatever the reads and the writes do, the bytes arrive in the order in which they were read, and
-- the counter, below 2^64 at first, grows, modulo 2^64, by the bytes of the chunks that were written
-- in full; at most a front part of one more chunk has been sent. A copy that ends well has delivered
-- and counted all bytes.
pub copy_count-Copied :
    (rs : List Reading) (w : Writer) (counter : ℕ)
    → counter < u64_mod
    → Copied rs w counter (copy_count rs w counter)
unfolding copy_count bytes_read
copy_count-Copied [] w counter h = nothing-Copied [] w counter (ok tt) h (λ _. refl)
copy_count-Copied (read_failed ∷ rs) w counter h =
    nothing-Copied (read_failed ∷ rs) w counter (err not_read) h (λ d. absurd (cc))
copy_count-Copied (idle ∷ rs) w counter h =
    nothing-Copied (idle ∷ rs) w counter (err timed_out) h (λ d. absurd (cc))
copy_count-Copied (chunk [] ∷ rs) w counter h =
    nothing-Copied (chunk [] ∷ rs) w counter (ok tt) h (λ _. refl)
copy_count-Copied (chunk (b ∷ bs) ∷ rs) w counter h =
    let sends = flush-Emits (write_all-Emits (b ∷ bs)) in
    counted-Copied b bs rs w counter ((write_all (b ∷ bs) >> flush) w) (λ v c. copy_count rs v c) h
      (sends.whole w) (sends.part w) (λ v c k. copy_count-Copied rs v c k)
