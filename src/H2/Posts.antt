-- ===== src/H2/Posts.antt =====
-- The answer of `Lane::post` in `src/cf_h2.rs`: the HTTP response checked, its body collected and
-- charged, and the reply that comes of it; and `BufferedReply::replay_id`.
-- What the HTTP/2 connection delivers is a list; header values are byte strings, or none where
-- `to_str` fails. The budgets are charged by this request alone while its body comes in.
pub mod Bodies
pub mod Replies
pub mod ReplyIds
pub mod Charges
pub mod Collecting
pub mod Answers
mod Runs
use tg_ws_keenetic.Base.{
  ℕ, zero, suc, ◌+◌, ◌-◌, ◌*◌, ◌/◌, ◌%◌, ◌^◌, ◌≤◌, ◌<◌, min, max, bit_xor, ◌≡◌, refl, sym, ap, ◌∙◌,
  ◌≢◌, ◌↔◌, ◌⊎◌, inl, inr, Bool, true, false, not, ◌&&◌, ◌||◌, Option, none, some, List, [], ◌∷◌,
  ◌++◌, append_assoc, append-nil, arith, ltb, leb, ◌==◌, if◌then◌else◌, ltb→lt, lt→ltb, leb→le,
  ==_iff, tests, Bool-cases, and-true, either, not-true, or-false, Option-cases, some_inj, length,
  get_elem?, get_or, take, drop, replicate, All, length-append, length-take, length-drop,
  length-replicate, take-append-drop, take_at, drop_at, take-append, slice-append, slice-take,
  get_or-drop, get_or-append, take_all, drop_all, drop_nil, drop-drop, Result, ok, err, ErrorKind,
  ◌>>=◌, ◌>>◌, reject, ok_inj,
}
use tg_ws_keenetic.Base.Int.{ℤ, pos, negsuc, IsI16, negate}
use tg_ws_keenetic.Base.Bytes.{
  Bytes, IsByte, to_le_u16, to_be_u16, to_le_u32, from_le_u32, bytes_eq, bytes_eq→eq, bytes_eq_refl,
  bytes_eq_iff,
}
use tg_ws_keenetic.Base.Text.{lowercase, same_word, contains, parse_unsigned}
use tg_ws_keenetic.H2.Budget.{
  checked_add, sum_within, BudgetState, Budget, BudgetPermit, try_acquire, release,
  max_lane_reply_bytes, Charged, try_extend, drop_charge,
}
use tg_ws_keenetic.H2.Packets.{max_packet}

pub data PostError : Type 0 where
  transport : ℤ → PostError
  channel : ErrorKind → PostError
  route : ErrorKind → PostError

-- A result whose error is a `PostError`.
pub data Outcome {κ} (T : Type κ) : Type κ where
  fails : PostError → Outcome T
  gives : T → Outcome T

abbrev pub Header : Type 0
Header = Option (Option Bytes)

-- What `stream.data()` answers before its end: a chunk, with whether its capacity could be given
-- back, or an error.
pub data Data : Type 0 where
  data_chunk : Bytes → Bool → Data
  broken : Data

pub record Response : Type 0 where
  pub status : ℕ
  pub content_type : Header
  pub content_length : Header
  pub content_encoding : Header
  pub body : List Data

abbrev pub max_response_chunks : ℕ
max_response_chunks = 1024

unfoldable pub is_refusal : ℕ → Bool
is_refusal status = (status == 403) || (status == 404) || (status == 429) || (status == 444)

unfoldable pub is_html : Header → Bool
is_html (some (some value)) =
    contains (b't' ∷ b'e' ∷ b'x' ∷ b't' ∷ b'/' ∷ b'h' ∷ b't' ∷ b'm' ∷ b'l' ∷ []) (lowercase value)
is_html _ = false

abbrev pub parsed : Option ℕ → Outcome (Option ℕ)
parsed none = fails (route ErrorKind.other)
parsed (some n) = gives (some n)

unfoldable pub declared_length : ℕ → Header → Outcome (Option ℕ)
declared_length usize_max none = gives none
declared_length usize_max (some none) = fails (route ErrorKind.other)
declared_length usize_max (some (some value)) = parsed (parse_unsigned usize_max value)

unfoldable pub check_encoding : Header → Outcome (Unit {0})
check_encoding none = gives tt
check_encoding (some none) = fails (route ErrorKind.other)
check_encoding (some (some value)) =
    if same_word value (b'i' ∷ b'd' ∷ b'e' ∷ b'n' ∷ b't' ∷ b'i' ∷ b't' ∷ b'y' ∷ [])
    then gives tt
    else fails (route ErrorKind.invalid_data)

abbrev pub is_over : ℕ → Option ℕ → Bool
is_over bound none = false
is_over bound (some length) = ltb bound length

abbrev pub after_encoding : Option ℕ → Outcome (Unit {0}) → Outcome (Option ℕ)
after_encoding declared (fails e) = fails e
after_encoding declared (gives _) = gives declared

-- The checks up to `into_body`, with the declared length of the body.
unfoldable pub after_length : Response → Outcome (Option ℕ) → Outcome (Option ℕ)
unfolding check_encoding
after_length r (fails e) = fails e
after_length r (gives declared) =
    if is_over max_packet declared
    then fails (route ErrorKind.invalid_data)
    else after_encoding declared (check_encoding r.content_encoding)

unfoldable pub check_response : ℕ → Response → Outcome (Option ℕ)
unfolding after_length is_refusal is_html declared_length
check_response usize_max r =
    if is_refusal r.status
    then fails (transport (negate r.status))
    else if not (r.status == 200)
    then fails (route ErrorKind.other)
    else if is_html r.content_type
    then fails (route ErrorKind.invalid_data)
    else after_length r (declared_length usize_max r.content_length)

-- The budget of the process's replies and the lane's total, with this reply's charge if it has one.
pub data Account : Type 0 where
  uncharged : BudgetState → ℕ → Account
  charged : Charged → Account

-- A charge that is dropped, as on each return without a reply.
unfoldable pub settled : Account → Account
unfolding drop_charge
settled (uncharged global lane) = uncharged global lane
settled (charged c) = let (global, lane) = drop_charge c in uncharged global lane

module _ (usize_max : ℕ) (b : Budget) where
  -- `charge_reply`.
  unfoldable pub charge_global :
      ℕ → BudgetState → ℕ → Option (BudgetState × BudgetPermit) → Outcome (Unit {0}) × Account
  unfolding release
  charge_global bytes global lane none = (fails (channel ErrorKind.other), uncharged global lane)
  charge_global bytes global lane (some (s, p)) =
      if not (sum_within usize_max lane bytes max_lane_reply_bytes)
      then (fails (channel ErrorKind.other), uncharged (release s p) lane)
      else (
        gives tt,
        charged (record { global = s; permit = p; lane_reply_bytes = lane + bytes; own = bytes }),
      )

  unfoldable pub charge_reply : ℕ → BudgetState → ℕ → Outcome (Unit {0}) × Account
  unfolding charge_global
  charge_reply bytes global lane =
      charge_global bytes global lane (try_acquire usize_max b global bytes)

  unfoldable pub extended : Result (Unit {0}) × Charged → Outcome (Unit {0}) × Account
  extended (err kind, c) = (fails (channel kind), charged c)
  extended (ok _, c) = (gives tt, charged c)

  unfoldable pub charge_chunk : ℕ → Account → Outcome (Unit {0}) × Account
  unfolding charge_reply extended
  charge_chunk bytes (uncharged global lane) = charge_reply bytes global lane
  charge_chunk bytes (charged c) = extended (try_extend usize_max b bytes c)
