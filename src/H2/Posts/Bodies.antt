-- ===== src/H2/Posts/Bodies.antt =====
-- The loop of `post` that collects the body and charges it.
use tg_ws_keenetic.Base.{
  ℕ, ◌+◌, Bool, not, List, [], ◌∷◌, ◌++◌, ltb, leb, ◌==◌, if◌then◌else◌, length, ErrorKind,
}
use tg_ws_keenetic.Base.Bytes.{Bytes}
use tg_ws_keenetic.H2.Budget.{sum_within, Budget}
use tg_ws_keenetic.H2.Packets.{max_packet}
use tg_ws_keenetic.H2.Posts.{
  Account, Data, Outcome, broken, charge_chunk, data_chunk, fails, gives, max_response_chunks,
  route,
}

-- `content` with the length declared for it, or, where none was, the `chunks`.
pub data Collected : Type 0 where
  whole : ℕ → Bytes → Collected
  pieces : List Bytes → Collected

-- The body as far as it was read.
pub record Body : Type 0 where
  pub collected : Collected
  pub received : ℕ
  pub account : Account

module _ (usize_max : ℕ) (b : Budget) where
  unfoldable pub with_chunk :
      Bytes → List Bytes → Body → Outcome (Unit {0}) × Account → Outcome Body × Account
  with_chunk bytes parts s (fails e, account) = (fails e, account)
  with_chunk bytes parts s (gives _, account) =
      (gives (record s { collected = pieces (parts ++ (bytes ∷ [])); account = account }), account)

  unfoldable pub after_release : Outcome Body × Account → Outcome Body × Account
  after_release (fails e, account) = (fails e, account)
  after_release (gives _, account) = (fails (route ErrorKind.other), account)

  -- A chunk that was counted already, up to `release_capacity`.
  unfoldable pub keep_chunk : Bytes → Bool → Collected → Body → Outcome Body × Account
  unfolding with_chunk charge_chunk after_release
  keep_chunk bytes released (whole declared content) s =
      if ltb declared s.received
      then (fails (route ErrorKind.invalid_data), s.account)
      else if not released
      then (fails (route ErrorKind.other), s.account)
      else (gives (record s { collected = whole declared (content ++ bytes) }), s.account)
  keep_chunk bytes released (pieces parts) s =
      let kept = with_chunk bytes parts s (charge_chunk usize_max b (length bytes) s.account) in
      if length bytes == 0
      then (gives s, s.account)
      else if leb max_response_chunks (length parts)
      then (fails (route ErrorKind.invalid_data), s.account)
      else if not released
      then after_release kept
      else kept

  unfoldable pub take_chunk : Bytes → Bool → Body → Outcome Body × Account
  unfolding keep_chunk
  take_chunk bytes released s =
      if not (sum_within usize_max s.received (length bytes) max_packet)
      then (fails (route ErrorKind.invalid_data), s.account)
      else keep_chunk bytes released s.collected (record s { received = s.received + length bytes })

  abbrev pub go_on :
      (Body → Outcome Body × Account) → Outcome Body × Account → Outcome Body × Account
  go_on rest (fails e, account) = (fails e, account)
  go_on rest (gives s, _) = rest s

  unfoldable pub collect_body : List Data → Body → Outcome Body × Account
  unfolding take_chunk
  collect_body [] s = (gives s, s.account)
  collect_body (broken ∷ more) s = (fails (route ErrorKind.other), s.account)
  collect_body (data_chunk bytes released ∷ more) s =
      go_on (collect_body more) (take_chunk bytes released s)
