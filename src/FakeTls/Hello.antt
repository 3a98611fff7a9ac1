-- ===== src/FakeTls/Hello.antt =====
-- The hellos of the fake TLS session: `authenticate` and `build_server_hello`.
-- The clock's seconds, the size and the random bytes of the answer are arguments.
pub mod Sessions
pub mod Proofs
mod Runs
use tg_ws_keenetic.Base.{
  ℕ, zero, suc, ◌+◌, ◌-◌, ◌*◌, ◌/◌, ◌%◌, ◌^◌, ◌≤◌, ◌<◌, min, max, bit_xor, ◌≡◌, refl, sym, ap, ◌∙◌,
  ◌≢◌, ◌↔◌, ◌⊎◌, inl, inr, Bool, true, false, not, ◌&&◌, ◌||◌, Option, none, some, List, [], ◌∷◌,
  ◌++◌, append_assoc, append-nil, arith, ltb, leb, ◌==◌, if◌then◌else◌, ltb→lt, lt→ltb, leb→le,
  ==_iff, tests, Bool-cases, and-true, not-true, or-false, Option-cases, some_inj, length,
  get_elem?, get_or, take, drop, replicate, All, length-append, length-take, length-drop,
  length-replicate, take-append-drop, take_at, drop_at, take-append, slice-append, slice-take,
  get_or-drop, get_or-append, take_all, drop_all, drop_nil, drop-drop, Result, ok, err, ErrorKind,
  ◌>>=◌, ◌>>◌, reject, ok_inj,
}
use tg_ws_keenetic.Base.Bytes.{
  Bytes, IsByte, to_le_u16, to_be_u16, to_le_u32, from_le_u32, bytes_eq, bytes_eq→eq, bytes_eq_refl,
  bytes_eq_iff,
}

-- HMAC-SHA-256 of the crates `hmac` and `sha2`: a key and the data to a digest of 32 bytes.
pub record Mac : Type 0 where
  pub hmac : Bytes → Bytes → Bytes
  pub length-hmac : (key bs : Bytes) → length (hmac key bs) ≡ 32

abbrev pub timestamp_tolerance : ℕ
timestamp_tolerance = 120

abbrev pub ccs_frame : Bytes
ccs_frame = 0x14 ∷ 0x03 ∷ 0x03 ∷ 0 ∷ 1 ∷ 1 ∷ []

pub record ClientHello : Type 0 where
  pub client_random : Bytes
  pub session_id : Bytes

abbrev pub abs_diff : ℕ → ℕ → ℕ
abs_diff a b = (a - b) + (b - a)

-- `u32::from_le_bytes(from_fn(|i| random[28 + i] ^ expected[28 + i]))`.
unfoldable pub timestamp : Bytes → Bytes → ℕ
timestamp random expected =
    from_le_u32 (bit_xor (get_or random 28 0) (get_or expected 28 0))
      (bit_xor (get_or random 29 0) (get_or expected 29 0))
      (bit_xor (get_or random 30 0) (get_or expected 30 0))
      (bit_xor (get_or random 31 0) (get_or expected 31 0))

abbrev pub session_of : Bytes → Bytes
session_of hello =
    if leb 76 (length hello) && (get_or hello 43 0 == 32)
    then take 32 (drop 44 hello)
    else replicate 32 0

unfoldable pub checked_hello : Bytes → Bytes → Bytes → ℕ → Result ClientHello
unfolding timestamp
checked_hello random expected session_id now =
    reject (not (bytes_eq (take 28 expected) (take 28 random))) ErrorKind.permission_denied
    >> (reject (ltb timestamp_tolerance (abs_diff now (timestamp random expected)))
          ErrorKind.permission_denied
        >> ok (record { client_random = random; session_id = session_id }))

module _ (m : Mac) where
  open m use {hmac}

  unfoldable pub authenticate : Bytes → Bytes → ℕ → Result ClientHello
  unfolding checked_hello
  authenticate hello secret now =
      let expected = hmac secret (take 11 hello ++ (replicate 32 0 ++ drop 43 hello)) in
      reject
        (ltb (length hello) 43 || not (get_or hello 0 0 == 0x16) || not (get_or hello 5 0 == 1))
        ErrorKind.invalid_data
      >> checked_hello (take 32 (drop 11 hello)) expected (session_of hello) now

  -- The answer with the digest's place empty. `key_share` and `application` are the random bytes.
  unfoldable pub blank_server_hello : ClientHello → Bytes → Bytes → Bytes
  blank_server_hello client key_share application =
      (0x16 ∷ 0x03 ∷ 0x03 ∷ 0 ∷ 0x7a ∷ 2 ∷ 0 ∷ 0 ∷ 0x76 ∷ 0x03 ∷ 0x03 ∷ [])
      ++ (replicate 32 0
          ++ (32 ∷ client.session_id
              ++ ((0x13 ∷ 1 ∷ 0 ∷ 0 ∷ 0x2e ∷ 0 ∷ 0x33 ∷ 0 ∷ 0x24 ∷ 0 ∷ 0x1d ∷ 0 ∷ 0x20 ∷ [])
                  ++ (key_share
                      ++ ((0 ∷ 0x2b ∷ 0 ∷ 2 ∷ 0x03 ∷ 0x04 ∷ [])
                          ++ (ccs_frame
                              ++ (0x17 ∷ 0x03 ∷ 0x03 ∷ to_be_u16 (length application)
                                  ++ application)))))))

  unfoldable pub build_server_hello : Bytes → ClientHello → Bytes → Bytes → Bytes
  unfolding blank_server_hello
  build_server_hello secret client key_share application =
      let response = blank_server_hello client key_share application in
      take 11 response ++ (hmac secret (client.client_random ++ response) ++ drop 43 response)
