-- ===== src/Base/Wires.antt =====
-- What the program relies on of awaited reads and writes of tokio's `AsyncReadExt` and
-- `AsyncWriteExt`. A timeout round such a call shows as an error of it.
use Prim.Native.Nat.{ℕ, ◌≤◌}
use mathlib.Core.Path.{◌≡◌}
use mathlib.Core.List.{List, ◌++◌}
use tg_ws_keenetic.Base.Lists.{length}
use tg_ws_keenetic.Base.Results.{Result, ok}

-- `read` takes at most as many bytes as asked for, and none only at the end; `read_exact` takes as
-- many as asked for. `unread` is what is still going to be delivered.
pub record Reader : Type 1 where
  pub Inner : Type 0
  pub read : Inner → ℕ → Result (List ℕ) × Inner
  pub read_exact : Inner → ℕ → Result (List ℕ) × Inner
  pub unread : Inner → List ℕ
  pub read_takes :
      (s : Inner) (room : ℕ) (d : List ℕ) (s' : Inner)
      → read s room ≡ (ok d, s')
      → unread s ≡ d ++ unread s'
  pub read_fits :
      (s : Inner) (room : ℕ) (d : List ℕ) (s' : Inner) → read s room ≡ (ok d, s') → length d ≤ room
  pub read_exact_takes :
      (s : Inner) (n : ℕ) (d : List ℕ) (s' : Inner)
      → read_exact s n ≡ (ok d, s')
      → unread s ≡ d ++ unread s'
  pub read_exact_fills :
      (s : Inner) (n : ℕ) (d : List ℕ) (s' : Inner) → read_exact s n ≡ (ok d, s') → length d ≡ n

-- `write_all` writes all that it is given, unless it fails. `written` is what has been written.
pub record Writer : Type 1 where
  pub Inner : Type 0
  pub write_all : Inner → List ℕ → Result (Unit {0}) × Inner
  pub flush : Inner → Result (Unit {0}) × Inner
  pub written : Inner → List ℕ
  pub write_all_writes :
      (s : Inner) (bs : List ℕ) (s' : Inner)
      → write_all s bs ≡ (ok tt, s')
      → written s' ≡ written s ++ bs
  pub flush_keeps : (s : Inner) → written (flush s).1 ≡ written s
