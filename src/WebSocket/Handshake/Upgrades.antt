-- ===== src/WebSocket/Handshake/Upgrades.antt =====
-- What an answer must prove for the upgrade to be accepted.
use tg_ws_keenetic.Base.{
  passed, ℕ, ◌≡◌, refl, sym, ap, ◌∙◌, true, false, not, ◌||◌, Option, none, some, List, [], ◌∷◌,
  arith, ◌==◌, not-false, some_inj, Result, ok, err, ErrorKind,
}
use tg_ws_keenetic.Base.Bytes.{Bytes, bytes_eq→eq}
use mathlib.Core.Path.{subst}
use tg_ws_keenetic.Base.Text.{split_lines}
use tg_ws_keenetic.WebSocket.Handshake.{
  Text, read_block, Headers, get, read_text, decoded, after_block, read_http_headers, token,
  is_text, is_other, is_there, validate_upgrade, judged, upgrade, status,
}
use tg_ws_keenetic.WebSocket.Handshake.Blocks.{IsBlock, read_block-IsBlock, IsHead, IsBlock-IsHead}
use tg_ws_keenetic.WebSocket.Handshake.Fields.{
  values, combined, get-read_lines, HasToken, token-HasToken,
}
use tg_ws_keenetic.WebSocket.Handshake.Lines.{IsStatus, read_text-IsRead}

-- The answer begins with a block of headers, whose end is its first blank line, and the rest is what
-- follows it: its status is 101, its fields name the tokens of an upgrade and the proof for the key,
-- no extension, and no protocol but `binary`.
pub record IsProof (accept_of : Text → Text) (decode : Bytes → Option Text) (key : Text)
    (bytes rest : Bytes) : Type 0 where
  pub block : Bytes
  pub text : Text
  pub first : Text
  pub fields : List Text
  pub head : IsHead bytes block rest
  pub decodes : decode block ≡ some text
  pub lines : split_lines text ≡ first ∷ fields
  pub states : IsStatus first 101
  pub upgrades :
      HasToken
        (combined (values (b'u' ∷ b'p' ∷ b'g' ∷ b'r' ∷ b'a' ∷ b'd' ∷ b'e' ∷ []) fields))
        (b'w' ∷ b'e' ∷ b'b' ∷ b's' ∷ b'o' ∷ b'c' ∷ b'k' ∷ b'e' ∷ b't' ∷ [])
  pub connects :
      HasToken
        (combined (
          values (b'c' ∷ b'o' ∷ b'n' ∷ b'n' ∷ b'e' ∷ b'c' ∷ b't' ∷ b'i' ∷ b'o' ∷ b'n' ∷ []) fields))
        (b'u' ∷ b'p' ∷ b'g' ∷ b'r' ∷ b'a' ∷ b'd' ∷ b'e' ∷ [])
  pub proves :
      combined (
        values
          (b's' ∷ b'e' ∷ b'c' ∷ b'-' ∷ b'w' ∷ b'e' ∷ b'b' ∷ b's' ∷ b'o' ∷ b'c' ∷ b'k' ∷ b'e' ∷ b't'
            ∷ b'-' ∷ b'a' ∷ b'c' ∷ b'c' ∷ b'e' ∷ b'p' ∷ b't' ∷ [])
          fields)
      ≡ some (accept_of key)
  pub plain :
      values
        (b's' ∷ b'e' ∷ b'c' ∷ b'-' ∷ b'w' ∷ b'e' ∷ b'b' ∷ b's' ∷ b'o' ∷ b'c' ∷ b'k' ∷ b'e' ∷ b't'
          ∷ b'-' ∷ b'e' ∷ b'x' ∷ b't' ∷ b'e' ∷ b'n' ∷ b's' ∷ b'i' ∷ b'o' ∷ b'n' ∷ b's' ∷ [])
        fields
      ≡ []
  pub protocol :
      (p : Text)
      → combined (
          values
            (b's' ∷ b'e' ∷ b'c' ∷ b'-' ∷ b'w' ∷ b'e' ∷ b'b' ∷ b's' ∷ b'o' ∷ b'c' ∷ b'k' ∷ b'e'
              ∷ b't' ∷ b'-' ∷ b'p' ∷ b'r' ∷ b'o' ∷ b't' ∷ b'o' ∷ b'c' ∷ b'o' ∷ b'l' ∷ [])
            fields)
        ≡ some p
      → p ≡ (b'b' ∷ b'i' ∷ b'n' ∷ b'a' ∷ b'r' ∷ b'y' ∷ [])

combined-none : (texts : List Text) → combined texts ≡ none → texts ≡ []
combined-none [] e = refl
combined-none (t ∷ texts) e = cc e

is_text-some : (o : Option Text) (t : Text) → is_text o t ≡ true → o ≡ some t
is_text-some none t e = cc e
is_text-some (some v) t e = ap some (bytes_eq→eq v t e)

is_there-none : (o : Option Text) → is_there o ≡ false → o ≡ none
is_there-none none e = refl
is_there-none (some v) e = cc e

is_other-binary : (o : Option Text) (t p : Text) → is_other o t ≡ false → o ≡ some p → p ≡ t
is_other-binary none t p e q = cc q
is_other-binary (some v) t p e q = sym (some_inj q) ∙ bytes_eq→eq v t (not-false _ e)

module _ (accept_of : Text → Text) (decode : Bytes → Option Text) (key : Text)
    (bytes rest : Bytes) where
  validated :
      (block text : Text) (code : ℕ) (headers : Headers)
      → IsBlock [] bytes block rest
      → decode block ≡ some text
      → read_text (split_lines text) ≡ ok (code, headers)
      → validate_upgrade accept_of code headers key ≡ ok tt
      → IsProof accept_of decode key bytes rest
  unfolding validate_upgrade
  validated block text code headers b d q e =
      let up =
        token headers (b'u' ∷ b'p' ∷ b'g' ∷ b'r' ∷ b'a' ∷ b'd' ∷ b'e' ∷ [])
          (b'w' ∷ b'e' ∷ b'b' ∷ b's' ∷ b'o' ∷ b'c' ∷ b'k' ∷ b'e' ∷ b't' ∷ []) in
      let con =
        token headers (b'c' ∷ b'o' ∷ b'n' ∷ b'n' ∷ b'e' ∷ b'c' ∷ b't' ∷ b'i' ∷ b'o' ∷ b'n' ∷ [])
          (b'u' ∷ b'p' ∷ b'g' ∷ b'r' ∷ b'a' ∷ b'd' ∷ b'e' ∷ []) in
      let acc =
        is_text
          (get
            (b's' ∷ b'e' ∷ b'c' ∷ b'-' ∷ b'w' ∷ b'e' ∷ b'b' ∷ b's' ∷ b'o' ∷ b'c' ∷ b'k' ∷ b'e'
              ∷ b't' ∷ b'-' ∷ b'a' ∷ b'c' ∷ b'c' ∷ b'e' ∷ b'p' ∷ b't' ∷ [])
            headers)
          (accept_of key) in
      let (status, e1) = passed (not (code == 101)) (ErrorKind.http_error code) _ tt e in
      let (tokens, e2) = passed (not up || not con || not acc) ErrorKind.invalid_data _ tt e1 in
      let (extensions, e3) =
        passed
          (is_there (
            get
              (b's' ∷ b'e' ∷ b'c' ∷ b'-' ∷ b'w' ∷ b'e' ∷ b'b' ∷ b's' ∷ b'o' ∷ b'c' ∷ b'k' ∷ b'e'
                ∷ b't' ∷ b'-' ∷ b'e' ∷ b'x' ∷ b't' ∷ b'e' ∷ b'n' ∷ b's' ∷ b'i' ∷ b'o' ∷ b'n' ∷ b's'
                ∷ [])
              headers))
          ErrorKind.invalid_data _ tt e2 in
      let protocol : is_other
            (get
              (b's' ∷ b'e' ∷ b'c' ∷ b'-' ∷ b'w' ∷ b'e' ∷ b'b' ∷ b's' ∷ b'o' ∷ b'c' ∷ b'k' ∷ b'e'
                ∷ b't' ∷ b'-' ∷ b'p' ∷ b'r' ∷ b'o' ∷ b't' ∷ b'o' ∷ b'c' ∷ b'o' ∷ b'l' ∷ [])
              headers)
            (b'b' ∷ b'i' ∷ b'n' ∷ b'a' ∷ b'r' ∷ b'y' ∷ [])
          ≡ false =
        ground arith in
      let is101 : code ≡ 101 = ground arith in
      let has_up : up ≡ true = ground arith in
      let has_con : con ≡ true = ground arith in
      let has_acc : acc ≡ true = ground arith in
      let kept = read_text-IsRead (split_lines text) code headers q in
      let get_is : (name : Text) → get name headers ≡ combined (values name kept.fields) =
        λ name. get-read_lines name kept.fields [] headers kept.keeps in
      record {
        block = block;
        text = text;
        first = kept.first;
        fields = kept.fields;
        head = IsBlock-IsHead bytes block rest b;
        decodes = d;
        lines = kept.begins;
        states = subst (IsStatus kept.first) is101 kept.states;
        upgrades =
            subst
              (λ o. HasToken o (b'w' ∷ b'e' ∷ b'b' ∷ b's' ∷ b'o' ∷ b'c' ∷ b'k' ∷ b'e' ∷ b't' ∷ []))
              (get_is (b'u' ∷ b'p' ∷ b'g' ∷ b'r' ∷ b'a' ∷ b'd' ∷ b'e' ∷ []))
              (token-HasToken headers (b'u' ∷ b'p' ∷ b'g' ∷ b'r' ∷ b'a' ∷ b'd' ∷ b'e' ∷ [])
                (b'w' ∷ b'e' ∷ b'b' ∷ b's' ∷ b'o' ∷ b'c' ∷ b'k' ∷ b'e' ∷ b't' ∷ []) has_up);
        connects =
            subst (λ o. HasToken o (b'u' ∷ b'p' ∷ b'g' ∷ b'r' ∷ b'a' ∷ b'd' ∷ b'e' ∷ []))
              (get_is (b'c' ∷ b'o' ∷ b'n' ∷ b'n' ∷ b'e' ∷ b'c' ∷ b't' ∷ b'i' ∷ b'o' ∷ b'n' ∷ []))
              (token-HasToken headers
                (b'c' ∷ b'o' ∷ b'n' ∷ b'n' ∷ b'e' ∷ b'c' ∷ b't' ∷ b'i' ∷ b'o' ∷ b'n' ∷ [])
                (b'u' ∷ b'p' ∷ b'g' ∷ b'r' ∷ b'a' ∷ b'd' ∷ b'e' ∷ []) has_con);
        proves =
            sym (
              get_is (
                b's' ∷ b'e' ∷ b'c' ∷ b'-' ∷ b'w' ∷ b'e' ∷ b'b' ∷ b's' ∷ b'o' ∷ b'c' ∷ b'k' ∷ b'e'
                ∷ b't' ∷ b'-' ∷ b'a' ∷ b'c' ∷ b'c' ∷ b'e' ∷ b'p' ∷ b't' ∷ []))
            ∙ is_text-some _ _ has_acc;
        plain = combined-none _ (
            sym (
              get_is (
                b's' ∷ b'e' ∷ b'c' ∷ b'-' ∷ b'w' ∷ b'e' ∷ b'b' ∷ b's' ∷ b'o' ∷ b'c' ∷ b'k' ∷ b'e'
                ∷ b't' ∷ b'-' ∷ b'e' ∷ b'x' ∷ b't' ∷ b'e' ∷ b'n' ∷ b's' ∷ b'i' ∷ b'o' ∷ b'n' ∷ b's'
                ∷ []))
            ∙ is_there-none _ extensions);
        protocol = λ p same.
            is_other-binary _ (b'b' ∷ b'i' ∷ b'n' ∷ b'a' ∷ b'r' ∷ b'y' ∷ []) p protocol (
              get_is (
                b's' ∷ b'e' ∷ b'c' ∷ b'-' ∷ b'w' ∷ b'e' ∷ b'b' ∷ b's' ∷ b'o' ∷ b'c' ∷ b'k' ∷ b'e'
                ∷ b't' ∷ b'-' ∷ b'p' ∷ b'r' ∷ b'o' ∷ b't' ∷ b'o' ∷ b'c' ∷ b'o' ∷ b'l' ∷ [])
              ∙ same);
      }

  headers_read :
      (block text : Text)
      → IsBlock [] bytes block rest
      → decode block ≡ some text
      → (o : Result (ℕ × Headers)) → read_text (split_lines text) ≡ o
      → judged accept_of key (o, rest) ≡ (ok tt, rest)
      → IsProof accept_of decode key bytes rest
  headers_read block text b d (err kind) q e = cc (ap (λ x. x.0) e)
  headers_read block text b d (ok (code, headers)) q e =
      validated block text code headers b d q (ap (λ x. x.0) e)

  text_read :
      (block : Bytes)
      → IsBlock [] bytes block rest
      → (o : Option Text) → decode block ≡ o
      → judged accept_of key (decoded decode o, rest) ≡ (ok tt, rest)
      → IsProof accept_of decode key bytes rest
  text_read block b none d e = cc (ap (λ x. x.0) e)
  text_read block b (some text) d e =
      headers_read block text b d (read_text (split_lines text)) refl e

-- An upgrade is accepted only on a proof of it: a block of headers that the answer begins with, of at
-- most 16 KiB, which ends with its first blank line, not a byte further being read. Its status line
-- has HTTP/1.1 or HTTP/1.0 and the code 101; the fields named `upgrade` list `websocket`, those named
-- `connection` list `upgrade`, those of the proof are the proof for the key, there is no extension,
-- and the protocol is `binary` where one is named.
pub upgrade-IsProof :
    (accept_of : Text → Text) (decode : Bytes → Option Text) (key : Text) (bytes rest : Bytes)
    → upgrade accept_of decode key bytes ≡ (ok tt, rest)
    → IsProof accept_of decode key bytes rest
unfolding upgrade read_http_headers
upgrade-IsProof accept_of decode key bytes rest e = read (read_block [] bytes) refl e
  where
    read :
        (o : Result Bytes × Bytes)
        → read_block [] bytes ≡ o
        → judged accept_of key (after_block decode o) ≡ (ok tt, rest)
        → IsProof accept_of decode key bytes rest
    read (err kind, more) q f = cc (ap (λ x. x.0) f)
    read (ok block, more) q f =
        let text = decoded decode (decode block) in
        let same : more ≡ rest = left text f in
        text_read accept_of decode key bytes rest block
          (subst (IsBlock [] bytes block) same (read_block-IsBlock bytes block more q))
          (decode block) refl (subst (λ m. judged accept_of key (text, m) ≡ (ok tt, rest)) same f)
      where
        left :
            (o : Result (ℕ × Headers))
            → judged accept_of key (o, more) ≡ (ok tt, rest)
            → more ≡ rest
        left (err kind) g = ap (λ x. x.1) g
        left (ok (code, headers)) g = ap (λ x. x.1) g
