-- ===== src/FakeTls/Hello/Proofs.antt =====
-- What the hellos of a fake TLS session prove to the other side.
use tg_ws_keenetic.Base.{
  ℕ, ◌+◌, ◌/◌, ◌%◌, ◌^◌, ◌<◌, bit_xor, ◌≡◌, sym, ap, ◌∙◌, true, false, not, ◌||◌, [], ◌∷◌, ◌++◌,
  arith, ltb, leb, ◌==◌, if◌then◌else◌, length, get_or, take, drop, replicate, length-append,
  length-take, take_at, drop_at, get_or-drop, get_or-append, drop-drop, ok, err, ErrorKind,
}
use tg_ws_keenetic.Base.Bytes.{Bytes, to_be_u16, bytes_eq, bytes_eq_refl}
use tg_ws_keenetic.Base.Bits.{bit_xor_cancel}
use tg_ws_keenetic.FakeTls.Hello.{
  Mac, timestamp_tolerance, ccs_frame, ClientHello, abs_diff, timestamp, checked_hello,
  authenticate, blank_server_hello, build_server_hello,
}
use tg_ws_keenetic.FakeTls.Hello.Sessions.{IsSession, session_of-hello}

-- The last four bytes of a random that a client makes of the time under a digest.
abbrev pub under_digest : ℕ → Bytes → Bytes
under_digest time digest =
    bit_xor (time % 256) (get_or digest 28 0)
    ∷ bit_xor (time / 256 % 256) (get_or digest 29 0)
    ∷ bit_xor (time / 65536 % 256) (get_or digest 30 0)
    ∷ bit_xor (time / 16777216 % 256) (get_or digest 31 0)
    ∷ []

checked_hello-under_digest :
    (digest session_id : Bytes) (time now : ℕ)
    → length digest ≡ 32
    → time < 2 ^ 32
    → checked_hello (take 28 digest ++ under_digest time digest) digest session_id now ≡ (
        if leb (abs_diff now time) timestamp_tolerance
        then ok (record {
          client_random = take 28 digest ++ under_digest time digest;
          session_id = session_id;
        })
        else err ErrorKind.permission_denied)
unfolding checked_hello
checked_hello-under_digest digest session_id time now l t =
    let start = take 28 digest in
    let random = start ++ under_digest time digest in
    let ls : length start ≡ 28 = omega (arith, length-take 28 digest) in
    let same : bytes_eq (take 28 digest) (take 28 random) ≡ true =
      ap (bytes_eq start) (take_at start (under_digest time digest) 28 ls) ∙ bytes_eq_refl start in
    rw (same, stated ls) (ground arith)
  where
    last :
        (i : ℕ)
        → length (take 28 digest) ≡ 28
        → get_or (take 28 digest ++ under_digest time digest) (28 + i) 0
          ≡ get_or (under_digest time digest) i 0
    last i ls =
        sym (get_or-drop 28 i (take 28 digest ++ under_digest time digest) 0)
        ∙ ap (λ x. get_or x i 0) (drop_at (take 28 digest) (under_digest time digest) 28 ls)

    stated :
        length (take 28 digest) ≡ 28
        → timestamp (take 28 digest ++ under_digest time digest) digest ≡ time
    stated ls =
        unfold timestamp in
        rw
          (
            last 0 ls,
            last 1 ls,
            last 2 ls,
            last 3 ls,
            bit_xor_cancel (time % 256) (get_or digest 28 0),
            bit_xor_cancel (time / 256 % 256) (get_or digest 29 0),
            bit_xor_cancel (time / 65536 % 256) (get_or digest 30 0),
            bit_xor_cancel (time / 16777216 % 256) (get_or digest 31 0),
          )
          (omega arith)

module _ (m : Mac) where
  open m use {hmac, length-hmac}

  -- The random that a client puts into its hello: the digest of the hello with zeros in that
  -- place, the last four bytes combined with the time.
  abbrev pub proof : Bytes → Bytes → Bytes → ℕ → Bytes
  proof secret start rest time =
      let digest = hmac secret (start ++ (replicate 32 0 ++ rest)) in
      take 28 digest ++ under_digest time digest

  abbrev pub client_hello : Bytes → Bytes → Bytes → ℕ → Bytes
  client_hello secret start rest time = start ++ (proof secret start rest time ++ rest)

  length-proof : (secret start rest : Bytes) (time : ℕ) → length (proof secret start rest time) ≡ 32
  length-proof secret start rest time =
      let digest = hmac secret (start ++ (replicate 32 0 ++ rest)) in
      omega (
        arith,
        length-append (take 28 digest) (under_digest time digest),
        length-take 28 digest,
        length-hmac secret (start ++ (replicate 32 0 ++ rest)),
      )

  -- A client that knows the secret and made its hello, which begins with 11 bytes of the right
  -- kind, at a second of 32 bits is let in exactly while the clock is within 120 seconds of it, and
  -- the proxy learns its random and its session: the 32 bytes that it states behind the random, or
  -- zeros where it states no session of 32 bytes.
  pub authenticate-client_hello :
      (secret start rest session : Bytes) (time now : ℕ)
      → length start ≡ 11
      → IsSession rest session
      → get_or start 0 0 ≡ 0x16
      → get_or start 5 0 ≡ 1
      → time < 2 ^ 32
      → authenticate m (client_hello secret start rest time) secret now ≡ (
          if leb (abs_diff now time) timestamp_tolerance
          then ok (record { client_random = proof secret start rest time; session_id = session })
          else err ErrorKind.permission_denied)
  unfolding authenticate
  authenticate-client_hello secret start rest session time now l stated a b t =
      let hello = client_hello secret start rest time in
      let random = proof secret start rest time in
      let lp = length-proof secret start rest time in
      let e1 : take 32 (drop 11 hello) ≡ random =
        rw (drop_at start (random ++ rest) 11 l) (take_at random rest 32 lp) in
      let e2 : take 11 hello ≡ start = take_at start (random ++ rest) 11 l in
      let e3 : drop 43 hello ≡ rest =
        sym (drop-drop 32 11 hello)
        ∙ ap (drop 32) (drop_at start (random ++ rest) 11 l)
        ∙ drop_at random rest 32 lp in
      let whole = length-append start (random ++ rest) in
      let more = length-append random rest in
      let first : get_or hello 0 0 ≡ 0x16 =
        get_or-append 0 start (random ++ rest) 0 (omega arith) ∙ a in
      let kind : get_or hello 5 0 ≡ 1 =
        get_or-append 5 start (random ++ rest) 0 (omega arith) ∙ b in
      let formed : (ltb (length hello) 43
            || not (get_or hello 0 0 == 0x16)
            || not (get_or hello 5 0 == 1))
          ≡ false =
        ground (arith, whole, more, lp, first, kind) in
      rw (formed, e1, e2, e3, session_of-hello start random rest session l lp stated)
        (checked_hello-under_digest (hmac secret (start ++ (replicate 32 0 ++ rest))) session time
          now (length-hmac secret _) t)

  -- Where the session's number and the key share have 32 bytes, the answer is 138 bytes and the
  -- application data long, and bytes 11 to 42 are the digest, under the secret, of the client's random and the answer with
  -- zeros in that place.
  pub build_server_hello_proves :
      (secret key_share application : Bytes) (client : ClientHello)
      → length client.session_id ≡ 32
      → length key_share ≡ 32
      → (let answer = build_server_hello m secret client key_share application in
          (length answer ≡ 138 + length application)
          × (take 32 (drop 11 answer)
              ≡ hmac secret
                  (client.client_random ++ (take 11 answer ++ (replicate 32 0 ++ drop 43 answer)))))
  unfolding build_server_hello blank_server_hello
  build_server_hello_proves secret key_share application client ls lk =
      let records : Bytes =
        0 ∷ 0x2b ∷ 0 ∷ 2 ∷ 0x03 ∷ 0x04 ∷ ccs_frame
        ++ (0x17 ∷ 0x03 ∷ 0x03 ∷ to_be_u16 (length application) ++ application) in
      let shared : Bytes =
        0x13 ∷ 1 ∷ 0 ∷ 0 ∷ 0x2e ∷ 0 ∷ 0x33 ∷ 0 ∷ 0x24 ∷ 0 ∷ 0x1d ∷ 0 ∷ 0x20 ∷ key_share
        ++ records in
      let tail : Bytes = 32 ∷ client.session_id ++ shared in
      let start : Bytes = 0x16 ∷ 0x03 ∷ 0x03 ∷ 0 ∷ 0x7a ∷ 2 ∷ 0 ∷ 0 ∷ 0x76 ∷ 0x03 ∷ 0x03 ∷ [] in
      let digest : Bytes =
        hmac secret (client.client_random ++ (start ++ (replicate 32 0 ++ tail))) in
      let ld : length digest ≡ 32 = length-hmac secret _ in
      (
        omega (
          arith,
          length-append digest tail,
          ld,
          length-append client.session_id shared,
          length-append key_share records,
          ls,
          lk,
        ),
        take_at digest tail 32 ld
            ∙ ap (λ x. hmac secret (client.client_random ++ (start ++ (replicate 32 0 ++ x))))
                (sym (drop_at digest tail 32 ld)),
      )
