-- ===== src/H2/Posts/Collecting.antt =====
-- The body of a response collected chunk by chunk: in order, counted, within bounds and charged.
use tg_ws_keenetic.Base.{
  ℕ, ◌+◌, ◌≤◌, ◌<◌, ◌≡◌, refl, sym, ap, ◌∙◌, Bool, not, List, [], ◌∷◌, ◌++◌, append_assoc,
  append-nil, arith, ltb, leb, ◌==◌, either, length, length-append,
}
use tg_ws_keenetic.Base.Bytes.{Bytes}
use mathlib.Core.Path.{subst}
use tg_ws_keenetic.H2.Budget.{sum_within, BudgetState, Budget}
use tg_ws_keenetic.H2.Packets.{max_packet}
use tg_ws_keenetic.H2.Packets.Replies.{joined, joined-append}
use tg_ws_keenetic.H2.Posts.{
  Account, Data, Outcome, broken, channel, charge_chunk, data_chunk, fails, gives,
  max_response_chunks, route, settled, transport, uncharged,
}
use tg_ws_keenetic.H2.Posts.Bodies.{
  Body, Collected, after_release, collect_body, go_on, keep_chunk, pieces, take_chunk, whole,
  with_chunk,
}
use tg_ws_keenetic.H2.Posts.Charges.{Holds, Holds-settled, Charges, charge_chunk-Charges}

-- The bytes that the response delivers.
abbrev pub delivered : List Data → Bytes
delivered [] = []
delivered (data_chunk bytes released ∷ more) = bytes ++ delivered more
delivered (broken ∷ more) = delivered more

-- The bytes that were collected, and what must be charged for them.
abbrev pub bytes_of : Collected → Bytes
bytes_of (whole declared content) = content
bytes_of (pieces parts) = joined parts

abbrev pub charge_for : Collected → ℕ → ℕ
charge_for (whole declared content) received = declared
charge_for (pieces parts) received = received

abbrev pub FewParts : Collected → Type 0
FewParts (whole declared content) = Unit
FewParts (pieces parts) = length parts ≤ max_response_chunks

append-empty : (front bytes : Bytes) → length bytes ≡ 0 → front ++ bytes ≡ front
append-empty front [] h = append-nil front
append-empty front (x ∷ bytes) h = absurd (omega arith)

module _ (usize_max : ℕ) (b : Budget) (global : BudgetState) (lane : ℕ) where
  pub record IsCollected (front : Bytes) (s : Body) : Type 0 where
    pub in_order : bytes_of s.collected ≡ front
    pub counted : s.received ≡ length front
    pub bounded : s.received ≤ max_packet
    pub few : FewParts s.collected
    pub paid : Holds global lane (charge_for s.collected s.received) s.account

  -- One step of reading the body: it fails, and the charge can be given back, or it has collected
  -- the bytes that came.
  abbrev pub Reads : Bytes → Outcome Body × Account → Type 0
  Reads front (fails (transport z), a) = ⊥
  Reads front (fails e, a) = settled a ≡ uncharged global lane
  Reads front (gives s, a) = (a ≡ s.account) × IsCollected front s

  with_chunk-Reads :
      (front bytes : Bytes) (parts : List Bytes) (n : ℕ) (s : Body)
      → joined parts ≡ front
      → n ≡ length front
      → length parts < max_response_chunks
      → n + length bytes ≤ max_packet
      → s.received ≡ n + length bytes
      → (o : Outcome (Unit {0}) × Account) → Charges usize_max b global lane n (length bytes) o
      → Reads (front ++ bytes) (with_chunk usize_max b bytes parts s o)
  unfolding with_chunk
  with_chunk-Reads front bytes parts n s e m f k r (fails (transport z), a) c = c
  with_chunk-Reads front bytes parts n s e m f k r (fails (channel x), a) c = c
  with_chunk-Reads front bytes parts n s e m f k r (fails (route x), a) c = c
  with_chunk-Reads front bytes parts n s e m f k r (gives _, a) c = (
    refl,
    record {
      in_order =
          ap (λ t. joined (parts ++ t)) refl
          ∙ joined-append parts (bytes ∷ [])
          ∙ rw (e, append-nil bytes) refl;
      counted = omega (arith, length-append front bytes, r, m);
      bounded = omega (arith, r, k);
      few = omega (arith, length-append parts (bytes ∷ []), f);
      paid =
          subst (λ x. Holds global lane x a) (sym r)
            (subst (Holds global lane (n + length bytes)) (sym c) (Holds.one (n + length bytes)));
    },
  )

  after_release-Reads :
      (front : Bytes) (o : Outcome Body × Account)
      → Reads front o
      → Reads front (after_release usize_max b o)
  unfolding after_release
  after_release-Reads front (fails (transport z), a) r = r
  after_release-Reads front (fails (channel x), a) r = r
  after_release-Reads front (fails (route x), a) r = r
  after_release-Reads front (gives s, a) (e, c) =
      ap settled e ∙ Holds-settled global lane (charge_for s.collected s.received) s.account c.paid

  whole-Reads :
      (front bytes content : Bytes) (released : Bool) (declared : ℕ) (s : Body)
      → content ≡ front
      → s.received ≡ length front + length bytes
      → s.received ≤ max_packet
      → Holds global lane declared s.account
      → Reads (front ++ bytes) (keep_chunk usize_max b bytes released (whole declared content) s)
  unfolding keep_chunk
  whole-Reads front bytes content released declared s e r k paid =
      let back = Holds-settled global lane declared s.account paid in
      either (Reads (front ++ bytes)) (ltb declared s.received) (λ _. back)
        (λ _.
          either (Reads (front ++ bytes)) (not released) (λ _. back)
            (λ _. (
              refl,
              record {
                in_order = ap (λ t. t ++ bytes) e;
                counted = omega (arith, length-append front bytes, r);
                bounded = k;
                few = tt;
                paid = paid;
              },
            )))

  unchanged :
      (front : Bytes) (parts : List Bytes) (n : ℕ) (s : Body)
      → joined parts ≡ front
      → n ≡ length front
      → length parts ≤ max_response_chunks
      → n ≤ max_packet
      → s.received ≡ n
      → Holds global lane n s.account
      → s.collected ≡ pieces parts
      → IsCollected front s
  unchanged front parts n s e m f k r paid same = record {
    in_order = rw same e;
    counted = r ∙ m;
    bounded = omega (arith, r, k);
    few = subst FewParts (sym same) f;
    paid = rw (same, r) paid;
  }

  pieces-Reads :
      (front bytes : Bytes) (parts : List Bytes) (released : Bool) (n : ℕ) (s : Body)
      → joined parts ≡ front
      → n ≡ length front
      → length parts ≤ max_response_chunks
      → s.received ≡ n + length bytes
      → s.received ≤ max_packet
      → Holds global lane n s.account
      → s.collected ≡ pieces parts
      → Reads (front ++ bytes) (keep_chunk usize_max b bytes released (pieces parts) s)
  unfolding keep_chunk
  pieces-Reads front bytes parts released n s e m f r k paid same =
      let back = Holds-settled global lane n s.account paid in
      let kept =
        with_chunk usize_max b bytes parts s (charge_chunk usize_max b (length bytes) s.account) in
      let P : Outcome Body × Account → Type 0 = Reads (front ++ bytes) in
      either P (length bytes == 0)
        (λ empty. (
          refl,
          subst (λ t. IsCollected t s) (sym (append-empty front bytes (ground arith)))
              (unchanged front parts n s e m f (omega (arith, r, k)) (ground arith) paid same),
        ))
        (λ _.
          either P (leb max_response_chunks (length parts)) (λ _. back)
            (λ room.
              let good : P kept =
                with_chunk-Reads front bytes parts n s e m (ground arith) (omega (arith, r, k)) r
                  (charge_chunk usize_max b (length bytes) s.account)
                  (charge_chunk-Charges usize_max b global lane n (length bytes) s.account paid) in
              either P (not released) (λ _. after_release-Reads (front ++ bytes) kept good)
                (λ _. good)))

  collected-Reads :
      (front bytes : Bytes) (released : Bool) (c : Collected) (s s' : Body)
      → s.collected ≡ c
      → s' ≡ record s { received = s.received + length bytes }
      → s.received + length bytes ≤ max_packet
      → IsCollected front s
      → Reads (front ++ bytes) (keep_chunk usize_max b bytes released c s')
  collected-Reads front bytes released (whole declared content) s s' e q k h =
      whole-Reads front bytes content released declared s' (ap bytes_of (sym e) ∙ h.in_order)
        (ground (arith, q, h.counted)) (ground (arith, q))
        (subst (λ x. Holds global lane declared x) (sym (ap (λ (x : Body). x.account) q))
          (subst (λ c. Holds global lane (charge_for c s.received) s.account) e h.paid))
  collected-Reads front bytes released (pieces parts) s s' e q k h =
      pieces-Reads front bytes parts released s.received s' (ap bytes_of (sym e) ∙ h.in_order)
        h.counted (subst FewParts e h.few) (ground (arith, q)) (ground (arith, q))
        (subst (λ x. Holds global lane s.received x) (sym (ap (λ (x : Body). x.account) q))
          (subst (λ c. Holds global lane (charge_for c s.received) s.account) e h.paid))
        (ap (λ (x : Body). x.collected) q ∙ e)

  take_chunk-Reads :
      (front bytes : Bytes) (released : Bool) (s : Body)
      → IsCollected front s
      → Reads (front ++ bytes) (take_chunk usize_max b bytes released s)
  unfolding take_chunk
  take_chunk-Reads front bytes released s h =
      either (Reads (front ++ bytes))
        (not (sum_within usize_max s.received (length bytes) max_packet))
        (λ _. Holds-settled global lane (charge_for s.collected s.received) s.account h.paid)
        (λ fits. collected-Reads front bytes released s.collected s _ refl refl (ground arith) h)

  go_on-Reads :
      (front more : Bytes) (rest : Body → Outcome Body × Account)
      → ((s : Body) → IsCollected front s → Reads (front ++ more) (rest s))
      → (o : Outcome Body × Account) → Reads front o
      → Reads (front ++ more) (go_on usize_max b rest o)
  go_on-Reads front more rest h (fails (transport z), a) r = r
  go_on-Reads front more rest h (fails (channel x), a) r = r
  go_on-Reads front more rest h (fails (route x), a) r = r
  go_on-Reads front more rest h (gives s, a) (q, c) = h s c

  pub collect_body-Reads :
      (data_in : List Data) (front : Bytes) (s : Body)
      → IsCollected front s
      → Reads (front ++ delivered data_in) (collect_body usize_max b data_in s)
  unfolding collect_body
  collect_body-Reads [] front s h = (refl, subst (λ t. IsCollected t s) (sym (append-nil front)) h)
  collect_body-Reads (broken ∷ more) front s h =
      Holds-settled global lane (charge_for s.collected s.received) s.account h.paid
  collect_body-Reads (data_chunk bytes released ∷ more) front s h =
      subst
        (λ t. Reads t (
          go_on usize_max b (collect_body usize_max b more)
            (take_chunk usize_max b bytes released s)))
        (append_assoc front bytes (delivered more))
        (go_on-Reads (front ++ bytes) (delivered more) (collect_body usize_max b more)
          (λ s' h'. collect_body-Reads more (front ++ bytes) s' h')
          (take_chunk usize_max b bytes released s) (take_chunk-Reads front bytes released s h))
