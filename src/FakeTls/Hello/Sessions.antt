-- ===== src/FakeTls/Hello/Sessions.antt =====
-- The session that a client states in its hello, as the proxy finds it.
use tg_ws_keenetic.Base.{
  ◌+◌, ◌≡◌, ◌≢◌, ◌⊎◌, inl, inr, ◌≤◌, ◌&&◌, either, take-append-drop, sym, ap, ◌∙◌, true, [], ◌∷◌,
  ◌++◌, arith, leb, ◌==◌, if◌then◌else◌, length, get_or, take, drop, replicate, length-append,
  length-take, take_at, drop_at, get_or-drop, drop-drop,
}
use tg_ws_keenetic.Base.Bytes.{Bytes}
use tg_ws_keenetic.FakeTls.Hello.{session_of}

-- Behind its random a client states a session of 32 bytes, or no session of so many, which counts as
-- zeros.
abbrev pub IsSession : Bytes → Bytes → Type 0
IsSession rest session =
    (length session ≡ 32)
    × (((more : Bytes) × (rest ≡ 32 ∷ session ++ more))
        ⊎ ((session ≡ replicate 32 0) × ((s more : Bytes) → length s ≡ 32 → rest ≢ 32 ∷ s ++ more)))

stated_session :
    (rest session : Bytes)
    → IsSession rest session
    → (if leb 33 (length rest) && (get_or rest 0 0 == 32)
        then take 32 (drop 1 rest)
        else replicate 32 0)
      ≡ session
stated_session rest session (l, inl (more, e)) =
    let size : 33 ≤ length rest = omega (arith, ap length e, length-append session more, l) in
    let enough : leb 33 (length rest) ≡ true = ground arith in
    let here : (get_or rest 0 0 == 32) ≡ true = ap (λ t. get_or t 0 0 == 32) e in
    simp (enough, here) (ap (λ t. take 32 (drop 1 t)) e ∙ take_at session more 32 l)
stated_session [] session (l, inr (zeros, absent)) = sym zeros
stated_session (x ∷ xs) session (l, inr (zeros, absent)) =
    either (λ t. t ≡ session) (leb 33 (length (x ∷ xs)) && (x == 32))
      (λ both.
        let long : 32 ≤ length xs = ground arith in
        let first : x ≡ 32 = ground arith in
        absurd (
          absent (take 32 xs) (drop 32 xs) (omega (arith, long, length-take 32 xs))
            (ap (λ t. t ∷ xs) first ∙ ap (λ t. 32 ∷ t) (sym (take-append-drop 32 xs)))))
      (λ _. sym zeros)

pub session_of-hello :
    (start random rest session : Bytes)
    → length start ≡ 11
    → length random ≡ 32
    → IsSession rest session
    → session_of (start ++ (random ++ rest)) ≡ session
session_of-hello start random rest session l lr h =
    let hello = start ++ (random ++ rest) in
    let whole : length hello ≡ 43 + length rest =
      omega (arith, length-append start (random ++ rest), length-append random rest, l, lr) in
    let size : leb 76 (length hello) ≡ leb 33 (length rest) = ground (arith, whole) in
    let behind : drop 43 hello ≡ rest =
      sym (drop-drop 32 11 hello)
      ∙ ap (drop 32) (drop_at start (random ++ rest) 11 l)
      ∙ drop_at random rest 32 lr in
    let first : get_or hello 43 0 ≡ get_or rest 0 0 =
      sym (get_or-drop 43 0 hello 0) ∙ ap (λ t. get_or t 0 0) behind in
    let session_at : drop 44 hello ≡ drop 1 rest =
      sym (drop-drop 1 43 hello) ∙ ap (drop 1) behind in
    rw (size, first, session_at) (stated_session rest session h)
