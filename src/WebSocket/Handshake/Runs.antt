-- ===== src/WebSocket/Handshake/Runs.antt =====
-- Answers of servers, good and bad.
use tg_ws_keenetic.Base.{◌≡◌, refl, true, Option, some, [], ◌∷◌, ◌++◌, ok, err, ErrorKind}
use tg_ws_keenetic.Base.Bytes.{Bytes}
use tg_ws_keenetic.WebSocket.Handshake.{Text, upgrade, status, is_redirect}
use tg_ws_keenetic.WebSocket.Handshake.Upgrades.{IsProof, upgrade-IsProof}

-- A stand-in for the proof of a key, and text that is ASCII.
abbrev accept_of : Text → Text
accept_of key = key ++ (b'=' ∷ [])

abbrev decode : Bytes → Option Text
decode bytes = some bytes

abbrev crlf : Bytes
crlf = b'\r' ∷ b'\n' ∷ []

abbrev answer : Bytes
answer =
    (b'H' ∷ b'T' ∷ b'T' ∷ b'P' ∷ b'/' ∷ b'1' ∷ b'.' ∷ b'1' ∷ b' ' ∷ b'1' ∷ b'0' ∷ b'1' ∷ b' ' ∷ b'Y'
      ∷ b'e' ∷ b's' ∷ [])
    ++ (crlf
        ++ ((b'U' ∷ b'p' ∷ b'g' ∷ b'r' ∷ b'a' ∷ b'd' ∷ b'e' ∷ b':' ∷ b' ' ∷ b'W' ∷ b'e' ∷ b'b'
              ∷ b'S' ∷ b'o' ∷ b'c' ∷ b'k' ∷ b'e' ∷ b't' ∷ [])
            ++ (crlf
                ++ ((b'C' ∷ b'o' ∷ b'n' ∷ b'n' ∷ b'e' ∷ b'c' ∷ b't' ∷ b'i' ∷ b'o' ∷ b'n' ∷ b':'
                      ∷ b' ' ∷ b'k' ∷ b'e' ∷ b'e' ∷ b'p' ∷ b'-' ∷ b'a' ∷ b'l' ∷ b'i' ∷ b'v' ∷ b'e'
                      ∷ b',' ∷ b' ' ∷ b'U' ∷ b'p' ∷ b'g' ∷ b'r' ∷ b'a' ∷ b'd' ∷ b'e' ∷ [])
                    ++ (crlf
                        ++ ((b'S' ∷ b'e' ∷ b'c' ∷ b'-' ∷ b'W' ∷ b'e' ∷ b'b' ∷ b'S' ∷ b'o' ∷ b'c'
                              ∷ b'k' ∷ b'e' ∷ b't' ∷ b'-' ∷ b'A' ∷ b'c' ∷ b'c' ∷ b'e' ∷ b'p' ∷ b't'
                              ∷ b':' ∷ b' ' ∷ b'k' ∷ b'=' ∷ [])
                            ++ (crlf ++ (crlf ++ (130 ∷ 0 ∷ [])))))))))

answer_runs : upgrade accept_of decode (b'k' ∷ []) answer ≡ (ok tt, 130 ∷ 0 ∷ [])
unfolding upgrade
answer_runs = refl

upgrade-IsProof_example : IsProof accept_of decode (b'k' ∷ []) answer (130 ∷ 0 ∷ [])
upgrade-IsProof_example =
    upgrade-IsProof accept_of decode (b'k' ∷ []) answer (130 ∷ 0 ∷ []) answer_runs

redirect_runs :
    (upgrade accept_of decode (b'k' ∷ []) (
        (b'H' ∷ b'T' ∷ b'T' ∷ b'P' ∷ b'/' ∷ b'1' ∷ b'.' ∷ b'1' ∷ b' ' ∷ b'3' ∷ b'0' ∷ b'2' ∷ b' '
          ∷ b'F' ∷ b'o' ∷ b'u' ∷ b'n' ∷ b'd' ∷ [])
        ++ (crlf ++ crlf))
      ≡ (err (ErrorKind.http_error 302), []))
    × (is_redirect (ErrorKind.http_error 302) ≡ true)
    × (status (ErrorKind.http_error 302) ≡ some 302)
unfolding upgrade is_redirect status
redirect_runs = (refl, refl, refl)
