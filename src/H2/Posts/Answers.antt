-- ===== src/H2/Posts/Answers.antt =====
-- What a response comes to: the whole body, aligned, charged and within bounds, or the budgets as
-- they were.
use tg_ws_keenetic.Base.{
  ℕ, ◌+◌, ◌%◌, ◌≤◌, ◌≡◌, refl, sym, ap, ◌∙◌, ◌⊎◌, inl, inr, Bool, true, false, not, ◌&&◌, Option,
  none, some, List, [], ◌∷◌, append-nil, arith, ◌==◌, either, length, replicate,
}
use tg_ws_keenetic.Base.Int.{negate}
use tg_ws_keenetic.Base.Bytes.{Bytes}
use mathlib.Core.Path.{subst}
use tg_ws_keenetic.H2.Budget.{BudgetState, Budget}
use tg_ws_keenetic.H2.Packets.{max_packet}
use tg_ws_keenetic.H2.Packets.Replies.{joined}
use tg_ws_keenetic.H2.Posts.{
  Account, Header, Outcome, PostError, Response, after_encoding, after_length, channel,
  charge_reply, charged, check_encoding, check_response, declared_length, fails, gives, is_html,
  is_over, is_refusal, max_response_chunks, parsed, route, transport, uncharged,
}
use tg_ws_keenetic.H2.Posts.Bodies.{Body, Collected, collect_body, pieces, whole}
use tg_ws_keenetic.H2.Posts.Replies.{
  Posted, after_charge, answer_body, collect, copied, failed, finish_body, i32_of, is_below_zero,
  is_short, keep_reply, nothing, panics, parts_of, read_response, reply,
}
use tg_ws_keenetic.Base.Text.{same_word}
use tg_ws_keenetic.H2.Posts.ReplyIds.{copied-joined}
use tg_ws_keenetic.H2.Posts.Charges.{charge_of, Holds, Holds-settled, Charges, charge_reply-Charges}
use tg_ws_keenetic.H2.Posts.Collecting.{
  delivered, bytes_of, charge_for, FewParts, IsCollected, Reads, collect_body-Reads,
}

module _ (usize_max : ℕ) (b : Budget) (global : BudgetState) (lane : ℕ) where
  -- Why a reply is a transport error: the status is one of a refusal, or the body is a negative code
  -- of four bytes.
  abbrev pub IsCause : Response → PostError → Type 0
  IsCause r (transport z) =
      ((is_refusal r.status ≡ true) × (z ≡ negate r.status))
      ⊎ ((length (delivered r.body) ≡ 4)
          × (z ≡ i32_of (delivered r.body))
          × (is_below_zero z ≡ true))
  IsCause r (channel kind) = Unit
  IsCause r (route kind) = Unit

  abbrev pub Answers : Response → Posted × Account → Type 0
  Answers r (failed e, a) = (a ≡ uncharged global lane) × IsCause r e
  Answers r (nothing, a) = (a ≡ uncharged global lane) × (delivered r.body ≡ [])
  Answers r (panics, a) = ⊥
  Answers r (reply parts n, a) =
      (a ≡ charged (charge_of global lane n))
      × (joined parts ≡ delivered r.body)
      × (n ≡ length (joined parts))
      × (1 ≤ n)
      × (n ≤ max_packet)
      × (n % 4 ≡ 0)
      × (length parts ≤ max_response_chunks)

  keep_reply-Answers :
      (r : Response) (parts : List Bytes) (n : ℕ) (a : Account)
      → Holds global lane n a
      → joined parts ≡ delivered r.body
      → n ≡ length (joined parts)
      → 1 ≤ n
      → n ≤ max_packet
      → n % 4 ≡ 0
      → length parts ≤ max_response_chunks
      → Answers r (keep_reply parts n a)
  unfolding keep_reply
  keep_reply-Answers r parts _ _ Holds.none_yet e m p q al f = absurd (omega arith)
  keep_reply-Answers r parts _ _ (Holds.one n) e m p q al f = (refl, e, m, p, q, al, f)

  joined-parts_of : (c : Collected) → joined (parts_of c) ≡ bytes_of c
  joined-parts_of (whole declared content) = append-nil content
  joined-parts_of (pieces parts) = refl

  length-parts_of : (c : Collected) → FewParts c → length (parts_of c) ≤ max_response_chunks
  length-parts_of (whole declared content) f = omega arith
  length-parts_of (pieces parts) f = f

  charge_for-full : (c : Collected) (n : ℕ) → is_short c n ≡ false → charge_for c n ≡ n
  charge_for-full (whole declared content) n f = ground arith
  charge_for-full (pieces parts) n f = refl

  short_code :
      (c : Collected) (body : Bytes)
      → bytes_of c ≡ body
      → length body ≡ 4
      → i32_of (copied (parts_of c) 0 (replicate 4 0)) ≡ i32_of body
  short_code c body e four =
      ap i32_of
        (copied-joined (parts_of c) 4 [] ∙ rw (joined-parts_of c, e, four) (append-nil body))

  finish_body-Answers :
      (r : Response) (s : Body)
      → IsCollected usize_max b global lane (delivered r.body) s
      → Answers r (finish_body s)
  unfolding finish_body
  finish_body-Answers r s h =
      let back = Holds-settled global lane (charge_for s.collected s.received) s.account h.paid in
      let code = i32_of (copied (parts_of s.collected) 0 (replicate 4 0)) in
      let P : Posted × Account → Type 0 = Answers r in
      let same = joined-parts_of s.collected ∙ h.in_order in
      either P (is_short s.collected s.received) (λ _. (back, tt))
        (λ full.
          either P (not (s.received % 4 == 0)) (λ _. (back, tt))
            (λ aligned.
              either P ((s.received == 4) && is_below_zero code)
                (λ coded.
                  let four : length (delivered r.body) ≡ 4 = ground (arith, h.counted) in
                  let e = short_code s.collected (delivered r.body) h.in_order four in
                  (back, inr (four, e, ground arith)))
                (λ _.
                  either P (s.received == 0)
                    (λ none_came. (back, empty_body (delivered r.body) (ground (arith, h.counted))))
                    (λ some_came.
                      keep_reply-Answers r (parts_of s.collected) s.received s.account
                        (subst (λ n. Holds global lane n s.account)
                          (charge_for-full s.collected s.received full) h.paid)
                        same (h.counted ∙ ap length (sym same)) (ground arith) h.bounded
                        (ground arith) (length-parts_of s.collected h.few)))))
    where
      empty_body : (bs : Bytes) → length bs ≡ 0 → bs ≡ []
      empty_body [] e = refl
      empty_body (x ∷ bs) e = absurd (omega arith)

  answer_body-Answers :
      (r : Response) (o : Outcome Body × Account)
      → Reads usize_max b global lane (delivered r.body) o
      → Answers r (answer_body usize_max b o)
  unfolding answer_body
  answer_body-Answers r (fails (transport z), a) c = absurd c
  answer_body-Answers r (fails (channel kind), a) c = (c, tt)
  answer_body-Answers r (fails (route kind), a) c = (c, tt)
  answer_body-Answers r (gives s, a) (e, c) = finish_body-Answers r s c

  after_charge-Answers :
      (r : Response) (allocated : Bool) (declared : ℕ) (o : Outcome (Unit {0}) × Account)
      → Charges usize_max b global lane 0 declared o
      → Answers r (after_charge usize_max b allocated r.body declared o)
  unfolding after_charge
  after_charge-Answers r allocated declared (fails (transport z), a) c = absurd c
  after_charge-Answers r allocated declared (fails (channel kind), a) c = (c, tt)
  after_charge-Answers r allocated declared (fails (route kind), a) c = (c, tt)
  after_charge-Answers r allocated declared (gives _, a) c =
      let paid : Holds global lane declared a =
        let sum : 0 + declared ≡ declared = omega arith in
        subst (Holds global lane declared)
          (sym (c ∙ ap (λ n. charged (charge_of global lane n)) sum)) (Holds.one declared) in
      let start : Body = record { collected = whole declared []; received = 0; account = a } in
      either (Answers r) (not allocated) (λ _. (Holds-settled global lane declared a paid, tt))
        (λ _. answer_body-Answers r (collect_body usize_max b r.body start) (
          collect_body-Reads usize_max b global lane r.body [] start (record {
            in_order = refl;
            counted = refl;
            bounded = omega arith;
            few = tt;
            paid = paid;
          })))

  -- What the checks of the headers let through.
  abbrev Checks : Response → Outcome (Option ℕ) → Type 0
  Checks r (fails e) = IsCause r e
  Checks r (gives declared) = Unit

  parsed-Checks : (r : Response) (o : Option ℕ) → Checks r (parsed o)
  parsed-Checks r none = tt
  parsed-Checks r (some n) = tt

  declared_length-Checks : (r : Response) (h : Header) → Checks r (declared_length usize_max h)
  unfolding declared_length
  declared_length-Checks r none = tt
  declared_length-Checks r (some none) = tt
  declared_length-Checks r (some (some value)) = parsed-Checks r _

  check_encoding-Checks :
      (r : Response) (declared : Option ℕ) (h : Header)
      → Checks r (after_encoding declared (check_encoding h))
  unfolding check_encoding
  check_encoding-Checks r declared none = tt
  check_encoding-Checks r declared (some none) = tt
  check_encoding-Checks r declared (some (some value)) =
      either (λ o. Checks r (after_encoding declared o))
        (same_word value (b'i' ∷ b'd' ∷ b'e' ∷ b'n' ∷ b't' ∷ b'i' ∷ b't' ∷ b'y' ∷ [])) (λ _. tt)
        (λ _. tt)

  after_length-Checks :
      (r : Response) (o : Outcome (Option ℕ)) → Checks r o → Checks r (after_length r o)
  unfolding after_length
  after_length-Checks r (fails e) c = c
  after_length-Checks r (gives declared) c =
      either (Checks r) (is_over max_packet declared) (λ _. tt)
        (λ _. check_encoding-Checks r declared r.content_encoding)

  check_response-Checks : (r : Response) → Checks r (check_response usize_max r)
  unfolding check_response
  check_response-Checks r =
      either (Checks r) (is_refusal r.status) (λ refused. inl (refused, refl))
        (λ _.
          either (Checks r) (not (r.status == 200)) (λ _. tt)
            (λ _.
              either (Checks r) (is_html r.content_type) (λ _. tt)
                (λ _. after_length-Checks r _ (declared_length-Checks r r.content_length))))

  collect-Answers :
      (r : Response) (allocated : Bool) (o : Outcome (Option ℕ))
      → Checks r o
      → Answers r (collect usize_max b allocated r.body global lane o)
  unfolding collect
  collect-Answers r allocated (fails e) c = (refl, c)
  collect-Answers r allocated (gives (some declared)) c =
      after_charge-Answers r allocated declared (charge_reply usize_max b declared global lane)
        (charge_reply-Charges usize_max b global lane declared)
  collect-Answers r allocated (gives none) c =
      let start : Body = record {
        collected = pieces [];
        received = 0;
        account = uncharged global lane;
      } in
      answer_body-Answers r (collect_body usize_max b r.body start) (
        collect_body-Reads usize_max b global lane r.body [] start (record {
          in_order = refl;
          counted = refl;
          bounded = omega arith;
          few = omega arith;
          paid = Holds.none_yet;
        }))

  -- Whatever the server answers, and whatever room there is: a reply is the whole body that the
  -- response delivered, in order, not empty and of at most 4 MiB, of a length that 4 divides, in
  -- 1024 parts at most, with the lane and the process charged for just its length. Without a reply both
  -- accounts are as before; the body was empty, or there is an error, which is a transport error
  -- only for a refusing status or a body of four bytes that is a negative code. It never panics.
  pub read_response-Answers :
      (allocated : Bool) (r : Response)
      → Answers r (read_response usize_max b allocated r global lane)
  unfolding read_response
  read_response-Answers allocated r =
      collect-Answers r allocated (check_response usize_max r) (check_response-Checks r)
