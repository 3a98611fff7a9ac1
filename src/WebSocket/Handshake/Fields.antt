-- ===== src/WebSocket/Handshake/Fields.antt =====
-- The status line and the fields of an answer, as HTTP has them, and what `read_text` keeps of them.
use tg_ws_keenetic.Base.{
  ◌≡◌, refl, sym, ap, ◌∙◌, inl, inr, Bool, true, Option, none, some, List, [], ◌∷◌, ◌++◌,
  append_assoc, if◌then◌else◌, Bool-cases, All, ok, ◌>>=◌, ok_inj,
}
use tg_ws_keenetic.Base.Bytes.{bytes_eq, bytes_eq→eq}
use tg_ws_keenetic.Base.Maps.{any}
use tg_ws_keenetic.Base.Text.{lowercase, trim_both, split, join, split_once, same_word}
use tg_ws_keenetic.Base.Splits.{Lacks, join-split, split-Lacks}
use tg_ws_keenetic.WebSocket.Handshake.{
  Text, Headers, get, add_header, added, read_lines, has_part, token,
}

-- The values of the lines `name: value` that have this name, in any case of letters.
abbrev pub with_value : Text → Option (Text × Text) → List Text → List Text
with_value name none rest = rest
with_value name (some (key, value)) rest =
    if bytes_eq (lowercase (trim_both key)) name then trim_both value ∷ rest else rest

abbrev pub values : Text → List Text → List Text
values name [] = []
values name (line ∷ lines) = with_value name (split_once b':' line) (values name lines)

-- The values of a name as one, with commas between them.
abbrev pub combined : List Text → Option Text
combined [] = none
combined (value ∷ more) = some (join b',' (value ∷ more))

abbrev behind : Option Text → List Text → Option Text
behind none more = combined more
behind (some old) more = some (join b',' (old ∷ more))

join_front :
    (a b : Text) (more : List Text) → join b',' ((a ++ b) ∷ more) ≡ a ++ join b',' (b ∷ more)
join_front a b [] = refl
join_front a b (x ∷ more) = append_assoc a b (b',' ∷ join b',' (x ∷ more))

join_comma :
    (a : Text) (more : List Text) → join b',' ((b',' ∷ a) ∷ more) ≡ b',' ∷ join b',' (a ∷ more)
join_comma a [] = refl
join_comma a (x ∷ more) = refl

behind-behind :
    (o : Option Text) (value : Text) (more : List Text)
    → behind (behind o (value ∷ [])) more ≡ behind o (value ∷ more)
behind-behind none value more = refl
behind-behind (some old) value more =
    ap some (join_front old (b',' ∷ value) more ∙ ap (λ t. old ++ t) (join_comma value more))

get-add_header :
    (name key value : Text) (headers : Headers)
    → get name (add_header key value headers)
      ≡ (if bytes_eq key name then behind (get name headers) (value ∷ []) else get name headers)
unfolding get add_header
get-add_header name key value [] = refl
get-add_header name key value ((k, old) ∷ headers) =
    let h = get-add_header name key value headers in
    elim (Bool-cases (bytes_eq k key)) [
      | inl same ↦
          let e : bytes_eq k name ≡ bytes_eq key name =
            ap (λ t. bytes_eq t name) (bytes_eq→eq k key same) in
          simp (same, e)
            (elim (Bool-cases (bytes_eq key name)) [
              | inl here ↦ simp here refl
              | inr other ↦ simp other refl
            ])
      | inr apart ↦ simp apart (elim (Bool-cases (bytes_eq k name)) [
        | inl here ↦ elim (Bool-cases (bytes_eq key name)) [
          | inl there ↦
              let e : bytes_eq k key ≡ true = ap (bytes_eq k) (bytes_eq→eq key name there) ∙ here in
              cc (e, apart)
          | inr other ↦ simp (here, other) refl
        ]
        | inr other ↦ simp other h
      ])
    ]

by_field :
    (name : Text) (lines : List Text) (headers read : Headers)
    → ((hs : Headers)
        → read_lines lines hs ≡ ok read
        → get name read ≡ behind (get name hs) (values name lines))
    → (o : Option (Text × Text)) → (added headers o >>= read_lines lines) ≡ ok read
    → get name read ≡ behind (get name headers) (with_value name o (values name lines))
by_field name lines headers read go none f = cc f
by_field name lines headers read go (some (key, value)) f =
    let k = lowercase (trim_both key) in
    let v = trim_both value in
    let more = go (add_header k v headers) f in
    let added_one = get-add_header name k v headers in
    elim (Bool-cases (bytes_eq k name)) [
      | inl here ↦
          let e1 : get name (add_header k v headers) ≡ behind (get name headers) (v ∷ []) =
            added_one
            ∙ ap (λ c. if c then behind (get name headers) (v ∷ []) else get name headers) here in
          simp here (
            more
            ∙ ap (λ o. behind o (values name lines)) e1
            ∙ behind-behind (get name headers) v (values name lines))
      | inr other ↦
          let e1 : get name (add_header k v headers) ≡ get name headers =
            added_one
            ∙ ap (λ c. if c then behind (get name headers) (v ∷ []) else get name headers) other in
          simp other (more ∙ ap (λ o. behind o (values name lines)) e1)
    ]

pub get-read_lines :
    (name : Text) (lines : List Text) (headers read : Headers)
    → read_lines lines headers ≡ ok read
    → get name read ≡ behind (get name headers) (values name lines)
unfolding read_lines
get-read_lines name [] headers read e =
    ap (get name) (sym (ok_inj e)) ∙ nothing_behind (get name headers)
  where
    nothing_behind : (o : Option Text) → o ≡ behind o []
    nothing_behind none = refl
    nothing_behind (some old) = refl
get-read_lines name ([] ∷ lines) headers read e = get-read_lines name lines headers read e
get-read_lines name ((c ∷ cs) ∷ lines) headers read e =
    by_field name lines headers read (λ hs. get-read_lines name lines hs read)
      (split_once b':' (c ∷ cs)) e

-- A list of parts with commas between them, one of which is the word, in any case of letters.
pub record HasToken (value : Option Text) (word : Text) : Type 0 where
  pub parts : List Text
  pub listed : value ≡ some (join b',' parts)
  pub apart : All (Lacks b',') parts
  pub front : List Text
  pub part : Text
  pub back : List Text
  pub found : parts ≡ front ++ (part ∷ back)
  pub same : lowercase (trim_both part) ≡ lowercase word

any-found :
    (p : Text → Bool) (parts : List Text)
    → any p parts ≡ true
    → (front : List Text) × ((part : Text) × ((back : List Text) × (parts ≡ front ++ (part ∷ back))
          × (p part ≡ true)))
any-found p [] e = cc e
any-found p (x ∷ parts) e = elim (Bool-cases (p x)) [
  | inl here ↦ ([], (x, (parts, refl, here)))
  | inr other ↦
      let (front, (part, (back, same, yes_part))) = any-found p parts (simp other at e) in
      (x ∷ front, (part, (back, ap (λ t. x ∷ t) same, yes_part)))
]

has_part-HasToken : (word : Text) (o : Option Text) → has_part word o ≡ true → HasToken o word
has_part-HasToken word none e = cc e
has_part-HasToken word (some value) e =
    let (front, (part, (back, where_it_is, same))) =
      any-found (λ part. same_word (trim_both part) word) (split b',' value) e in
    record {
      parts = split b',' value;
      listed = ap some (sym (join-split b',' value));
      apart = split-Lacks b',' value;
      front = front;
      part = part;
      back = back;
      found = where_it_is;
      same = bytes_eq→eq _ _ same;
    }

pub token-HasToken :
    (headers : Headers) (name word : Text)
    → token headers name word ≡ true
    → HasToken (get name headers) word
unfolding token
token-HasToken headers name word e = has_part-HasToken word (get name headers) e
