-- ===== src/Base/Polls.antt =====
-- `Poll<io::Result<T>>`, and what the program relies on of `AsyncRead` and `AsyncWrite`, which the
-- crate tokio and the operating system implement.
use Prim.Native.Nat.{ℕ, ◌≤◌, ◌<◌}
use mathlib.Core.Path.{◌≡◌, ap}
use mathlib.Core.List.{List, [], ◌++◌}
use tg_ws_keenetic.Base.Lists.{length, take}
use tg_ws_keenetic.Base.Results.{Result, ok, err, ErrorKind}

pub data Poll {ℓ} (A : Type ℓ) : Type ℓ where
  ready : Result A → Poll A
  pending : Poll A

-- A stream to read from. `unread` is what it is still going to deliver. A poll with room for some
-- bytes takes at most so many from the front of that, and takes none only at the end.
pub record AsyncRead : Type 1 where
  pub Inner : Type 0
  pub poll_read : Inner → ℕ → Poll (List ℕ) × Inner
  pub unread : Inner → List ℕ
  pub poll_read_takes :
      (s : Inner) (room : ℕ) (d : List ℕ) (s' : Inner)
      → poll_read s room ≡ (ready (ok d), s')
      → unread s ≡ d ++ unread s'
  pub poll_read_fits :
      (s : Inner) (room : ℕ) (d : List ℕ) (s' : Inner)
      → poll_read s room ≡ (ready (ok d), s')
      → length d ≤ room
  pub poll_read_ends :
      (s : Inner) (room : ℕ) (s' : Inner)
      → 0 < room
      → poll_read s room ≡ (ready (ok []), s')
      → unread s ≡ []
  pub poll_read_waits :
      (s : Inner) (room : ℕ) (s' : Inner) → poll_read s room ≡ (pending, s') → unread s' ≡ unread s

-- A stream to write to. `written` is all that it has accepted. A poll accepts a number of the bytes
-- at the front of what it is offered.
pub record AsyncWrite : Type 1 where
  pub Inner : Type 0
  pub poll_write : Inner → List ℕ → Poll ℕ × Inner
  pub poll_flush : Inner → Poll (Unit {0}) × Inner
  pub poll_shutdown : Inner → Poll (Unit {0}) × Inner
  pub written : Inner → List ℕ
  pub poll_write_accepts :
      (s : Inner) (bs : List ℕ) (n : ℕ) (s' : Inner)
      → poll_write s bs ≡ (ready (ok n), s')
      → written s' ≡ written s ++ take n bs
  pub poll_write_fits :
      (s : Inner) (bs : List ℕ) (n : ℕ) (s' : Inner)
      → poll_write s bs ≡ (ready (ok n), s')
      → n ≤ length bs
  pub poll_write_waits :
      (s : Inner) (bs : List ℕ) (s' : Inner)
      → poll_write s bs ≡ (pending, s')
      → written s' ≡ written s
  pub poll_write_fails :
      (s : Inner) (bs : List ℕ) (e : ErrorKind) (s' : Inner)
      → poll_write s bs ≡ (ready (err e), s')
      → written s' ≡ written s
  pub poll_flush_keeps : (s : Inner) → written (poll_flush s).1 ≡ written s
  pub poll_shutdown_keeps : (s : Inner) → written (poll_shutdown s).1 ≡ written s

ready_ok_inj {ℓ} : {A : Type ℓ} {a b : A} → ready (ok a) ≡ ready (ok b) → a ≡ b
ready_ok_inj e = cc

pub ready_inj {ℓ κ} :
    {A : Type ℓ} {S : Type κ} {a b : A} {s t : S}
    → ◌≡◌ {A = Poll A × S} (ready (ok a), s) (ready (ok b), t)
    → (a ≡ b) × (s ≡ t)
ready_inj e = (ready_ok_inj (ap (λ p. p.0) e), ap (λ p. p.1) e)
