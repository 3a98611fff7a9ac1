-- ===== src/H2/Posts/Replies.antt =====
-- The end of `post`, which makes a reply of the whole body, and `BufferedReply::replay_id`.
use tg_ws_keenetic.Base.{
  ℕ, ◌+◌, ◌-◌, ◌%◌, ◌^◌, min, Bool, true, false, not, ◌&&◌, Option, none, some, List, [], ◌∷◌, ◌++◌,
  ltb, ◌==◌, if◌then◌else◌, length, get_or, take, drop, replicate, ErrorKind,
}
use tg_ws_keenetic.Base.Int.{ℤ, pos, negsuc}
use tg_ws_keenetic.Base.Bytes.{Bytes, from_le_u32}
use tg_ws_keenetic.H2.Budget.{BudgetState, Budget}
use tg_ws_keenetic.H2.Posts.{
  Account, Data, Outcome, PostError, Response, channel, charge_reply, charged, check_response,
  fails, gives, route, settled, transport, uncharged,
}
use tg_ws_keenetic.H2.Posts.Bodies.{Body, Collected, collect_body, pieces, whole}

-- `copy_from_slice` into an array, from an offset.
abbrev pub copy_at : ℕ → Bytes → Bytes → Bytes
copy_at offset bytes array = take offset array ++ (bytes ++ drop (offset + length bytes) array)

abbrev pub copied : List Bytes → ℕ → Bytes → Bytes
copied [] offset array = array
copied (part ∷ parts) offset array = copied parts (offset + length part) (copy_at offset part array)

-- `i32::from_le_bytes`.
unfoldable pub i32_of : Bytes → ℤ
i32_of bs =
    let w = from_le_u32 (get_or bs 0 0) (get_or bs 1 0) (get_or bs 2 0) (get_or bs 3 0) in
    if ltb w (2 ^ 31) then pos w else negsuc (2 ^ 32 - 1 - w)

abbrev pub is_below_zero : ℤ → Bool
is_below_zero (pos n) = false
is_below_zero (negsuc n) = true

-- The answer of `post`; `panics` is the `expect` on a charge that is missing.
pub data Posted : Type 0 where
  failed : PostError → Posted
  nothing : Posted
  reply : List Bytes → ℕ → Posted
  panics : Posted

abbrev pub parts_of : Collected → List Bytes
parts_of (whole declared content) = content ∷ []
parts_of (pieces parts) = parts

abbrev pub is_short : Collected → ℕ → Bool
is_short (whole declared content) received = not (declared == received)
is_short (pieces parts) received = false

-- The end of `post`, from the whole body; the charge is dropped unless the reply keeps it.
unfoldable pub keep_reply : List Bytes → ℕ → Account → Posted × Account
keep_reply parts received (uncharged global lane) = (panics, uncharged global lane)
keep_reply parts received (charged c) = (reply parts received, charged c)

unfoldable pub finish_body : Body → Posted × Account
unfolding keep_reply settled i32_of
finish_body s =
    let parts = parts_of s.collected in
    let code = i32_of (copied parts 0 (replicate 4 0)) in
    if is_short s.collected s.received
    then (failed (route ErrorKind.unexpected_eof), settled s.account)
    else if not (s.received % 4 == 0)
    then (failed (route ErrorKind.invalid_data), settled s.account)
    else if (s.received == 4) && is_below_zero code
    then (failed (transport code), settled s.account)
    else if s.received == 0
    then (nothing, settled s.account)
    else keep_reply parts s.received s.account

module _ (usize_max : ℕ) (b : Budget) where
  unfoldable pub answer_body : Outcome Body × Account → Posted × Account
  unfolding finish_body settled
  answer_body (fails e, account) = (failed e, settled account)
  answer_body (gives s, _) = finish_body s

  -- A declared body is charged and its room reserved, which may fail, before it is read.
  unfoldable pub after_charge :
      Bool → List Data → ℕ → Outcome (Unit {0}) × Account → Posted × Account
  unfolding answer_body settled collect_body
  after_charge allocated data_in declared (fails e, account) = (failed e, settled account)
  after_charge allocated data_in declared (gives _, account) =
      let start : Body = record {
        collected = whole declared [];
        received = 0;
        account = account;
      } in
      if not allocated
      then (failed (channel ErrorKind.other), settled account)
      else answer_body (collect_body usize_max b data_in start)

  unfoldable pub collect :
      Bool → List Data → BudgetState → ℕ → Outcome (Option ℕ) → Posted × Account
  unfolding after_charge answer_body collect_body charge_reply
  collect allocated data_in global lane (fails e) = (failed e, uncharged global lane)
  collect allocated data_in global lane (gives (some declared)) =
      after_charge allocated data_in declared (charge_reply usize_max b declared global lane)
  collect allocated data_in global lane (gives none) = answer_body (
      collect_body usize_max b data_in
        (record { collected = pieces []; received = 0; account = uncharged global lane }))

  -- `post` from the response's headers on.
  unfoldable pub read_response : Bool → Response → BudgetState → ℕ → Posted × Account
  unfolding collect check_response
  read_response allocated r global lane =
      collect allocated r.body global lane (check_response usize_max r)

-- `replay_id`: the first 24 bytes of the parts, with their number.
pub record ReplyId : Type 0 where
  pub bytes : Bytes
  pub filled : ℕ

unfoldable pub fill : List Bytes → ReplyId → ReplyId
fill [] id = id
fill (part ∷ parts) id =
    let count = min (length part) (length id.bytes - id.filled) in
    let next : ReplyId = record {
      bytes = copy_at id.filled (take count part) id.bytes;
      filled = id.filled + count;
    } in
    let rest = fill parts next in if id.filled + count == length id.bytes then next else rest

unfoldable pub replay_id : List Bytes → ReplyId
unfolding fill
replay_id parts = fill parts (record { bytes = replicate 24 0; filled = 0 })
