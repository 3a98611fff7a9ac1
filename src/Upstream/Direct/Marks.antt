-- ===== src/Upstream/Direct/Marks.antt =====
-- What a table of data centres or addresses holds where it was written.
use tg_ws_keenetic.Base.{◌≡◌, refl, Bool, true, false, arith, ◌==◌, ==_iff}
use tg_ws_keenetic.Base.Bytes.{bytes_eq_refl}
use tg_ws_keenetic.Config.{Text}
use tg_ws_keenetic.Upstream.Direct.{DcKey, same_flag, same_dc, put_dc, put_ip}

same_flag_refl : (b : Bool) → same_flag b b ≡ true
same_flag_refl true = refl
same_flag_refl false = refl

same_dc_refl : (key : DcKey) → same_dc key key ≡ true
same_dc_refl (dc, media, test) =
    let e : (dc == dc) ≡ true = (==_iff dc dc).1 refl in
    ground (arith, e, same_flag_refl media, same_flag_refl test)

pub put_dc_at {ℓ} : {A : Type ℓ} (key : DcKey) (a : A) (f : DcKey → A) → put_dc key a f key ≡ a
put_dc_at key a f = simp (same_dc_refl key) refl

pub put_ip_at {ℓ} : {A : Type ℓ} (ip : Text) (a : A) (f : Text → A) → put_ip ip a f ip ≡ a
put_ip_at ip a f = simp (bytes_eq_refl ip) refl
