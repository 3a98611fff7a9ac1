-- ===== src/Proxy/DataCentres.antt =====
-- Which data-centre indices `normalize_dc` takes, and what it makes of them.
use tg_ws_keenetic.Base.{
  ℕ, ◌+◌, ◌≤◌, ◌≡◌, ◌↔◌, ◌⊎◌, inl, inr, Bool, true, false, ◌||◌, arith, leb, if◌then◌else◌,
  Bool-cases, ok,
}
use tg_ws_keenetic.Base.Int.{ℤ, pos, negsuc, IsI16, negate}
use tg_ws_keenetic.Proxy.Admission.{normalize_dc}

-- The index that a client sends for a data centre: 10000 more for a test server, negative for media.
abbrev pub index_of : ℕ → Bool → Bool → ℤ
index_of dc media far = let n = if far then dc + 10000 else dc in if media then negate n else pos n

abbrev pub IsDc : ℕ → Type 0
IsDc dc = ((1 ≤ dc) × (dc ≤ 5)) ⊎ (dc ≡ 203)

-- The index names the data centre, and the test servers are those that it names or all by force.
abbrev pub Named : ℤ → Bool → ℕ → Bool → Bool → Bool → Type 0
Named index force_test dc media test far =
    (index ≡ index_of dc media far) × (test ≡ far || force_test) × IsDc dc × (test ≡ true → dc ≤ 3)

-- The answer that is given to an index is that of the data centre that it names.
named :
    (index : ℤ) (force_test : Bool) (dc : ℕ) (media test : Bool)
    → IsI16 index
    → normalize_dc index force_test ≡ ok (dc, media, test)
    → (far : Bool) × Named index force_test dc media test far
unfolding normalize_dc
named (pos n) force_test dc media test h e = elim (Bool-cases (leb 10000 n)) [
  | inl t ↦ (true, (ground (arith, t), ground (arith, t), ground (arith, t), ground (arith, t)))
  | inr f ↦ (false, (ground (arith, f), ground (arith, f), ground (arith, f), ground (arith, f)))
]
named (negsuc n) force_test dc media test h e = elim (Bool-cases (leb 10000 (n + 1))) [
  | inl t ↦ (true, (ground (arith, t), ground (arith, t), ground (arith, t), ground (arith, t)))
  | inr f ↦ (false, (ground (arith, f), ground (arith, f), ground (arith, f), ground (arith, f)))
]

answered :
    (index : ℤ) (force_test : Bool) (dc : ℕ) (media test far : Bool)
    → IsI16 index
    → Named index force_test dc media test far
    → normalize_dc index force_test ≡ ok (dc, media, test)
unfolding normalize_dc
answered index force_test dc true test true h (e, t, d, k) = ground arith
answered index force_test dc true test false h (e, t, d, k) = ground arith
answered index force_test dc false test true h (e, t, d, k) = ground arith
answered index force_test dc false test false h (e, t, d, k) = ground arith

-- `normalize_dc` answers a data centre from 1 to 5 or 203, one from 1 to 3 where it is a test server,
-- exactly on the index that names it, and says whether it is for media and whether it is a test
-- server, by the index or by force.
pub normalize_dc_iff :
    (index : ℤ) (force_test : Bool) (dc : ℕ) (media test : Bool)
    → IsI16 index
    → (normalize_dc index force_test ≡ ok (dc, media, test))
      ↔ ((far : Bool) × Named index force_test dc media test far)
normalize_dc_iff index force_test dc media test h =
    (named index force_test dc media test h, λ s. answered index force_test dc media test s.0 h s.1)
