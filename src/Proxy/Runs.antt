-- ===== src/Proxy/Runs.antt =====
-- Runs of the admission and the theorems at concrete inputs.
use tg_ws_keenetic.Base.{
  ℕ, ◌≡◌, refl, true, false, List, [], ◌∷◌, arith, replicate, ok, err, ErrorKind,
}
use tg_ws_keenetic.Base.Int.{negsuc}
use tg_ws_keenetic.Base.Bytes.{Bytes}
use tg_ws_keenetic.Proxy.Admission.{normalize_dc, admit}
use tg_ws_keenetic.Proxy.Replays.{admit_all, admit_once}

-- Media of test server 2.
media_test : normalize_dc (negsuc 10001) false ≡ ok (2, true, true)
unfolding normalize_dc
media_test = refl

abbrev a_random : Bytes
a_random = replicate 32 5

abbrev others : List (ℕ × Bytes)
others = (2000, replicate 32 6) ∷ (250000, replicate 32 7) ∷ []

first_time : (admit 1000 a_random []).0 ≡ ok tt
unfolding admit
first_time = refl

admit_once_example :
    (admit 300999 a_random (admit_all others (admit 1000 a_random []).1)).0
    ≡ err ErrorKind.invalid_data
admit_once_example =
    admit_once 1000 300999 a_random others [] first_time (omega arith, (omega arith, tt))
      (omega arith)

-- It may come again when 300 seconds have passed.
let_in_again : (admit 301000 a_random (admit_all others (admit 1000 a_random []).1)).0 ≡ ok tt
unfolding admit_all
let_in_again = refl
