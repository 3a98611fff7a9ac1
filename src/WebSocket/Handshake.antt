-- ===== src/WebSocket/Handshake.antt =====
-- `read_http_headers` and `validate_upgrade` of `src/websocket.rs`: the server's answer to the
-- request for a WebSocket. `decode` is the standard library's `from_utf8`, with a string as the list
-- of its code points; `accept_of` is the proof for a key, by the crates `sha1` and `base64`.
pub mod Blocks
pub mod Fields
pub mod Lines
pub mod Upgrades
mod Runs
use tg_ws_keenetic.Base.{
  ℕ, zero, suc, ◌+◌, ◌-◌, ◌*◌, ◌/◌, ◌%◌, ◌^◌, ◌≤◌, ◌<◌, min, max, bit_xor, ◌≡◌, refl, sym, ap, ◌∙◌,
  ◌≢◌, ◌↔◌, ◌⊎◌, inl, inr, Bool, true, false, not, ◌&&◌, ◌||◌, Option, none, some, List, [], ◌∷◌,
  ◌++◌, append_assoc, append-nil, arith, ltb, leb, ◌==◌, if◌then◌else◌, ltb→lt, lt→ltb, leb→le,
  ==_iff, tests, Bool-cases, and-true, either, not-true, not-false, or-false, Option-cases,
  some_inj, length, get_elem?, get_or, take, drop, replicate, All, length-append, length-take,
  length-drop, length-replicate, take-append-drop, take_at, drop_at, take-append, slice-append,
  slice-take, get_or-drop, get_or-append, take_all, drop_all, drop_nil, drop-drop, Result, ok, err,
  ErrorKind, ◌>>=◌, ◌>>◌, reject, ok_inj,
}
use tg_ws_keenetic.Base.Bytes.{
  Bytes, IsByte, to_le_u16, to_be_u16, to_le_u32, from_le_u32, bytes_eq, bytes_eq→eq, bytes_eq_refl,
  bytes_eq_iff,
}
use tg_ws_keenetic.Base.Maps.{any, find}
use tg_ws_keenetic.Base.Text.{
  split_lines, split_once, first_part, trim_both, lowercase, same_word, split, parse_unsigned,
}

abbrev pub header_limit : ℕ
header_limit = 16 * 1024

abbrev pub Text : Type 0
Text = List ℕ

abbrev pub blank_line : Bytes
blank_line = b'\r' ∷ b'\n' ∷ b'\r' ∷ b'\n' ∷ []

-- `ends_with`.
unfoldable pub is_complete : Bytes → Bool
is_complete bytes = leb 4 (length bytes) && bytes_eq (drop (length bytes - 4) bytes) blank_line

-- The loop that reads byte by byte, on the bytes read so far and those to come.
unfoldable pub read_block : Bytes → Bytes → Result Bytes × Bytes
unfolding is_complete
read_block bytes [] =
    if is_complete bytes
    then (ok bytes, [])
    else if length bytes == header_limit
    then (err ErrorKind.invalid_data, [])
    else (err ErrorKind.unexpected_eof, [])
read_block bytes (b ∷ more) =
    let rest = read_block (bytes ++ (b ∷ [])) more in
    if is_complete bytes
    then (ok bytes, b ∷ more)
    else if length bytes == header_limit
    then (err ErrorKind.invalid_data, b ∷ more)
    else rest

-- `BTreeMap<String, String>`, of which only single keys are asked for.
abbrev pub Headers : Type 0
Headers = List (Text × Text)

unfoldable pub get : Text → Headers → Option Text
get key [] = none
get key ((k, value) ∷ headers) =
    let rest = get key headers in if bytes_eq k key then some value else rest

-- `entry(key).and_modify(..).or_insert_with(..)`: a second value is appended behind a comma.
unfoldable pub add_header : Text → Text → Headers → Headers
add_header key value [] = (key, value) ∷ []
add_header key value ((k, old) ∷ headers) =
    let rest = (k, old) ∷ add_header key value headers in
    if bytes_eq k key then (k, old ++ (b',' ∷ value)) ∷ headers else rest

abbrev pub added : Headers → Option (Text × Text) → Result Headers
added headers none = err ErrorKind.invalid_data
added headers (some (key, value)) =
    ok (add_header (lowercase (trim_both key)) (trim_both value) headers)

unfoldable pub read_lines : List Text → Headers → Result Headers
unfolding add_header
read_lines [] headers = ok headers
read_lines (line ∷ lines) headers =
    let rest = added headers (split_once b':' line) >>= read_lines lines in
    let skipped = read_lines lines headers in if bytes_eq line [] then skipped else rest

abbrev pub code_of : Option Text → Option ℕ
code_of none = none
code_of (some behind) = parse_unsigned 65535 (first_part b' ' behind).0

abbrev pub with_code : List Text → Option ℕ → Result (ℕ × Headers)
with_code lines none = err ErrorKind.invalid_data
with_code lines (some code) = read_lines lines [] >>= λ headers. ok (code, headers)

unfoldable pub read_text : List Text → Result (ℕ × Headers)
unfolding read_lines
read_text [] = err ErrorKind.invalid_data
read_text (status ∷ lines) =
    let (version, behind) = first_part b' ' status in
    reject
      (not (
        bytes_eq version (b'H' ∷ b'T' ∷ b'T' ∷ b'P' ∷ b'/' ∷ b'1' ∷ b'.' ∷ b'1' ∷ [])
        || bytes_eq version (b'H' ∷ b'T' ∷ b'T' ∷ b'P' ∷ b'/' ∷ b'1' ∷ b'.' ∷ b'0' ∷ [])))
      ErrorKind.invalid_data
    >> with_code lines (code_of behind)

module _ (decode : Bytes → Option Text) where
  abbrev pub decoded : Option Text → Result (ℕ × Headers)
  decoded none = err ErrorKind.invalid_data
  decoded (some text) = read_text (split_lines text)

  abbrev pub after_block : Result Bytes × Bytes → Result (ℕ × Headers) × Bytes
  after_block (err kind, more) = (err kind, more)
  after_block (ok bytes, more) = (decoded (decode bytes), more)

  unfoldable pub read_http_headers : Bytes → Result (ℕ × Headers) × Bytes
  unfolding read_block read_text
  read_http_headers bytes = after_block (read_block [] bytes)

abbrev pub has_part : Text → Option Text → Bool
has_part expected none = false
has_part expected (some value) =
    any (λ part. same_word (trim_both part) expected) (split b',' value)

-- The closure `token`.
unfoldable pub token : Headers → Text → Text → Bool
unfolding get
token headers name expected = has_part expected (get name headers)

abbrev pub is_text : Option Text → Text → Bool
is_text none text = false
is_text (some value) text = bytes_eq value text

abbrev pub is_other : Option Text → Text → Bool
is_other none text = false
is_other (some value) text = not (bytes_eq value text)

abbrev pub is_there : Option Text → Bool
is_there none = false
is_there (some value) = true

module _ (accept_of : Text → Text) where
  unfoldable pub validate_upgrade : ℕ → Headers → Text → Result (Unit {0})
  unfolding token get
  validate_upgrade code headers key =
      reject (not (code == 101)) (ErrorKind.http_error code)
      >> (reject
            (not (
                token headers (b'u' ∷ b'p' ∷ b'g' ∷ b'r' ∷ b'a' ∷ b'd' ∷ b'e' ∷ [])
                  (b'w' ∷ b'e' ∷ b'b' ∷ b's' ∷ b'o' ∷ b'c' ∷ b'k' ∷ b'e' ∷ b't' ∷ []))
              || not (
                  token headers
                    (b'c' ∷ b'o' ∷ b'n' ∷ b'n' ∷ b'e' ∷ b'c' ∷ b't' ∷ b'i' ∷ b'o' ∷ b'n' ∷ [])
                    (b'u' ∷ b'p' ∷ b'g' ∷ b'r' ∷ b'a' ∷ b'd' ∷ b'e' ∷ []))
              || not (
                  is_text
                    (get
                      (b's' ∷ b'e' ∷ b'c' ∷ b'-' ∷ b'w' ∷ b'e' ∷ b'b' ∷ b's' ∷ b'o' ∷ b'c' ∷ b'k'
                        ∷ b'e' ∷ b't' ∷ b'-' ∷ b'a' ∷ b'c' ∷ b'c' ∷ b'e' ∷ b'p' ∷ b't' ∷ [])
                      headers)
                    (accept_of key)))
            ErrorKind.invalid_data
          >> (reject
                (is_there (
                  get
                    (b's' ∷ b'e' ∷ b'c' ∷ b'-' ∷ b'w' ∷ b'e' ∷ b'b' ∷ b's' ∷ b'o' ∷ b'c' ∷ b'k'
                      ∷ b'e' ∷ b't' ∷ b'-' ∷ b'e' ∷ b'x' ∷ b't' ∷ b'e' ∷ b'n' ∷ b's' ∷ b'i' ∷ b'o'
                      ∷ b'n' ∷ b's' ∷ [])
                    headers))
                ErrorKind.invalid_data
              >> reject
                  (is_other
                    (get
                      (b's' ∷ b'e' ∷ b'c' ∷ b'-' ∷ b'w' ∷ b'e' ∷ b'b' ∷ b's' ∷ b'o' ∷ b'c' ∷ b'k'
                        ∷ b'e' ∷ b't' ∷ b'-' ∷ b'p' ∷ b'r' ∷ b'o' ∷ b't' ∷ b'o' ∷ b'c' ∷ b'o' ∷ b'l'
                        ∷ [])
                      headers)
                    (b'b' ∷ b'i' ∷ b'n' ∷ b'a' ∷ b'r' ∷ b'y' ∷ []))
                  ErrorKind.invalid_data))

  -- `connect_port` behind the request: the answer is read and judged.
  abbrev pub judged : Text → Result (ℕ × Headers) × Bytes → Result (Unit {0}) × Bytes
  judged key (err kind, more) = (err kind, more)
  judged key (ok (code, headers), more) = (validate_upgrade code headers key, more)

  unfoldable pub upgrade : (Bytes → Option Text) → Text → Bytes → Result (Unit {0}) × Bytes
  unfolding read_http_headers validate_upgrade
  upgrade decode key bytes = judged key (read_http_headers decode bytes)

-- `status` and `is_redirect`, on the error of a connect.
unfoldable pub status : ErrorKind → Option ℕ
status (ErrorKind.http_error code) = some code
status kind = none

unfoldable pub is_redirect : ErrorKind → Bool
is_redirect (ErrorKind.http_error code) =
    (code == 301) || (code == 302) || (code == 303) || (code == 307) || (code == 308)
is_redirect kind = false
