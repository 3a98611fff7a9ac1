-- ===== src/FakeTls/Hello/Runs.antt =====
-- The hellos at concrete inputs, over a digest that is no secret.
use tg_ws_keenetic.Base.{
  ◌+◌, ◌%◌, ◌≡◌, refl, inl, [], ◌∷◌, ◌++◌, arith, leb, if◌then◌else◌, length, take, drop, replicate,
  ok, err, ErrorKind,
}
use tg_ws_keenetic.Base.Bytes.{Bytes}
use tg_ws_keenetic.FakeTls.Hello.{
  Mac, ClientHello, timestamp_tolerance, abs_diff, authenticate, build_server_hello,
}
use tg_ws_keenetic.FakeTls.Hello.Proofs.{
  proof, client_hello, authenticate-client_hello, build_server_hello_proves,
}

-- The digest begins with the sum of the key's and the data's lengths.
abbrev sums : Mac
sums = record {
  hmac = λ key bs. (length key + length bs) % 256 ∷ replicate 31 3;
  length-hmac = λ key bs. refl;
}

abbrev a_secret : Bytes
a_secret = replicate 16 9

abbrev a_start : Bytes
a_start = 0x16 ∷ 0x03 ∷ 0x01 ∷ 2 ∷ 0 ∷ 1 ∷ 0 ∷ 1 ∷ 0xfc ∷ 0x03 ∷ 0x03 ∷ []

authenticate-client_hello_example :
    authenticate sums
      (client_hello sums a_secret a_start (32 ∷ replicate 40 8) 1700000000)
      a_secret
      1700000121
    ≡ (if leb (abs_diff 1700000121 1700000000) timestamp_tolerance
        then ok (record {
          client_random = proof sums a_secret a_start (32 ∷ replicate 40 8) 1700000000;
          session_id = replicate 32 8;
        })
        else err ErrorKind.permission_denied)
authenticate-client_hello_example =
    authenticate-client_hello sums a_secret a_start (32 ∷ replicate 40 8) (replicate 32 8)
      1700000000 1700000121 refl (refl, inl (replicate 8 8, refl)) refl refl (omega arith)

abbrev a_client : ClientHello
a_client = record { client_random = replicate 32 4; session_id = replicate 32 8 }

build_server_hello_proves_example :
    (length (build_server_hello sums a_secret a_client (replicate 32 1) (1 ∷ 2 ∷ [])) ≡ 138 + 2)
    × (take 32 (drop 11 (build_server_hello sums a_secret a_client (replicate 32 1) (1 ∷ 2 ∷ [])))
        ≡ Mac.hmac sums a_secret (
            replicate 32 4
            ++ (take 11 (build_server_hello sums a_secret a_client (replicate 32 1) (1 ∷ 2 ∷ []))
                ++ (replicate 32 0
                    ++ drop 43 (
                        build_server_hello sums a_secret a_client (replicate 32 1) (1 ∷ 2 ∷ []))))))
build_server_hello_proves_example =
    build_server_hello_proves sums a_secret (replicate 32 1) (1 ∷ 2 ∷ []) a_client refl refl
