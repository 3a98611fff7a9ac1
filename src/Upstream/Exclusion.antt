-- ===== src/Upstream/Exclusion.antt =====
-- No destination is dialled twice at once, nor before its time.
use tg_ws_keenetic.Base.{
  ℕ, ◌+◌, ◌-◌, ◌*◌, ◌^◌, ◌≤◌, ◌<◌, min, ◌≡◌, refl, sym, ap, ◌∙◌, ◌↔◌, inl, inr, true, false, ◌||◌,
  none, some, List, [], ◌∷◌, ◌++◌, arith, ltb, if◌then◌else◌, lt→ltb, Bool-cases, or-false,
  some_inj, Result, err, ErrorKind,
}
use tg_ws_keenetic.Base.Bytes.{bytes_eq→eq, bytes_eq_refl}
use mathlib.Core.Path.{subst}
use tg_ws_keenetic.Upstream.Routes.{tcp_fallback_backoff}
use tg_ws_keenetic.Upstream.Attempts.{
  Key, same, get, put, contains, without, TcpState, later_than, begin_attempt, attempt_success,
  or_zero, attempt_failure, end_attempt, after_begin, tcp_fallback,
}

same_refl : (k : Key) → same k k ≡ true
same_refl (host, port) = ground (arith, bytes_eq_refl host)

same→eq : (j k : Key) → same j k ≡ true → j ≡ k
same→eq (host, port) (host', port') h = ground (arith, bytes_eq→eq host host')

-- How many attempts to a destination are alive.
abbrev pub count : Key → List Key → ℕ
count k [] = 0
count k (j ∷ ks) = if same j k then count k ks + 1 else count k ks

-- One operation of a task, with the attempts that are alive.
pub data Step : TcpState → List Key → TcpState → List Key → Type 0 where
  begins :
      (key : Key) (now : ℕ) (s s' : TcpState) (alive : List Key)
      → begin_attempt key now s ≡ some s'
      → Step s alive s' (key ∷ alive)
  succeeds :
      (key : Key) (s s' : TcpState) (alive : List Key)
      → attempt_success key s ≡ s'
      → Step s alive s' alive
  fails :
      (key : Key) (now : ℕ) (s s' : TcpState) (delay : ℕ) (alive : List Key)
      → attempt_failure key now s ≡ (s', delay)
      → Step s alive s' alive
  ends :
      (key : Key) (s s' : TcpState) (before after alive alive' : List Key)
      → end_attempt key s ≡ s'
      → alive ≡ before ++ (key ∷ after)
      → alive' ≡ before ++ after
      → Step s alive s' alive'

pub data Reachable : TcpState → List Key → Type 0 where
  starts :
      (s : TcpState)
      → s ≡ record { tcp_failures = []; tcp_retry_after = []; tcp_connecting = [] }
      → Reachable s []
  then_step :
      (s s' : TcpState) (alive alive' : List Key)
      → Reachable s alive
      → Step s alive s' alive'
      → Reachable s' alive'

-- Every destination has at most one attempt alive, and is marked as connecting exactly then.
pub record IsExclusive (s : TcpState) (alive : List Key) : Type 0 where
  pub one : (k : Key) → count k alive ≤ 1
  pub marked : (k : Key) → (contains k s.tcp_connecting ≡ true) ↔ (1 ≤ count k alive)

count-append : (k : Key) (xs ys : List Key) → count k (xs ++ ys) ≡ count k xs + count k ys
count-append k [] ys = omega arith
count-append k (x ∷ xs) ys = ground (arith, count-append k xs ys)

contains_self : (k : Key) (ks : List Key) → contains k (without k ks) ≡ false
contains_self k [] = refl
contains_self k (i ∷ ks) = elim (Bool-cases (same i k)) [
  | inl t ↦ simp t (contains_self k ks)
  | inr f ↦ simp f (contains_self k ks)
]

contains_other :
    (k j : Key) (ks : List Key) → same j k ≡ false → contains k (without j ks) ≡ contains k ks
contains_other k j [] n = refl
contains_other k j (i ∷ ks) n = elim (Bool-cases (same i j)) [
  | inl t ↦
      let other : same i k ≡ false = ap (λ x. same x k) (same→eq i j t) ∙ n in
      simp (t, other) (contains_other k j ks n)
  | inr f ↦ elim (Bool-cases (same i k)) [
    | inl t ↦ simp (f, t) refl
    | inr g ↦ simp (f, g) (contains_other k j ks n)
  ]
]

begin-IsExclusive :
    (key : Key) (now : ℕ) (s s' : TcpState) (alive : List Key)
    → IsExclusive s alive
    → begin_attempt key now s ≡ some s'
    → IsExclusive s' (key ∷ alive)
unfolding begin_attempt
begin-IsExclusive key now s s' alive h e =
    elim (Bool-cases
      (contains key s.tcp_connecting || later_than now (get key s.tcp_retry_after))) [
        | inl t ↦ cc (simp t at e)
        | inr f ↦
            subst (λ x. IsExclusive x (key ∷ alive)) (some_inj (simp f at e))
              (record { one = alone (or-false _ _ f).0; marked = same_mark })
      ]
  where
    alone : contains key s.tcp_connecting ≡ false → (k : Key) → count k (key ∷ alive) ≤ 1
    alone f k = elim (Bool-cases (same key k)) [
      | inl t ↦
          let off : contains k s.tcp_connecting ≡ false =
            ap (λ x. contains x s.tcp_connecting) (sym (same→eq key k t)) ∙ f in
          ground (arith, t, off, h.marked k, h.one k)
      | inr g ↦ ground (arith, g, h.one k)
    ]

    same_mark :
        (k : Key) → (contains k (key ∷ s.tcp_connecting) ≡ true) ↔ (1 ≤ count k (key ∷ alive))
    same_mark k = elim (Bool-cases (same key k)) [
      | inl t ↦ simp t (λ _. omega arith, λ _. refl)
      | inr g ↦ simp g (h.marked k)
    ]

end-IsExclusive :
    (key : Key) (s : TcpState) (before after : List Key)
    → IsExclusive s (before ++ (key ∷ after))
    → IsExclusive (end_attempt key s) (before ++ after)
unfolding end_attempt
end-IsExclusive key s before after h = record { one = fewer; marked = same_mark }
  where
    fewer : (k : Key) → count k (before ++ after) ≤ 1
    fewer k =
        ground (arith, h.one k, count-append k before (key ∷ after), count-append k before after)

    same_mark :
        (k : Key)
        → (contains k (without key s.tcp_connecting) ≡ true) ↔ (1 ≤ count k (before ++ after))
    same_mark k =
        let whole = count-append k before (key ∷ after) in
        let rest = count-append k before after in
        elim (Bool-cases (same key k)) [
          | inl t ↦
              let off : contains k (without key s.tcp_connecting) ≡ false =
                ap (λ x. contains k (without x s.tcp_connecting)) (same→eq key k t)
                ∙ contains_self k s.tcp_connecting in
              ground (arith, t, off, whole, rest, h.one k)
          | inr f ↦
              let kept = contains_other k key s.tcp_connecting f in
              ground (arith, f, kept, whole, rest, h.marked k)
        ]

step-IsExclusive :
    (s s' : TcpState) (alive alive' : List Key)
    → Step s alive s' alive'
    → IsExclusive s alive
    → IsExclusive s' alive'
unfolding attempt_success attempt_failure
step-IsExclusive _ _ _ _ (Step.begins key now s s' alive e) h =
    begin-IsExclusive key now s s' alive h e
step-IsExclusive _ _ _ _ (Step.succeeds key s s' alive e) h =
    subst (λ x. IsExclusive x alive) e (record { one = h.one; marked = h.marked })
step-IsExclusive _ _ _ _ (Step.fails key now s s' delay alive e) h =
    subst (λ x. IsExclusive x alive) (ap (λ t. t.0) e) (record { one = h.one; marked = h.marked })
step-IsExclusive _ _ _ _ (Step.ends key s s' before after alive alive' e a a') h =
    subst (λ x. IsExclusive x alive') e
      (subst (IsExclusive (end_attempt key s)) (sym a')
        (end-IsExclusive key s before after (subst (IsExclusive s) a h)))

-- However the tasks' operations come, no destination is dialled by two attempts at once, and a
-- destination is marked as connecting exactly while an attempt to it is alive.
pub reachable-IsExclusive :
    (s : TcpState) (alive : List Key) → Reachable s alive → IsExclusive s alive
reachable-IsExclusive _ _ (Reachable.starts s e) =
    subst (λ x. IsExclusive x []) (sym e)
      (record { one = λ k. omega arith; marked = λ k. (λ t. cc t, λ l. absurd (omega arith)) })
reachable-IsExclusive _ _ (Reachable.then_step s s' alive alive' r st) =
    step-IsExclusive s s' alive alive' st (reachable-IsExclusive s alive r)

get-put : (k : Key) (n : ℕ) (m : List (Key × ℕ)) → get k (put k n m) ≡ some n
get-put k n m = simp (same_refl k) refl

begin-failures :
    (key : Key) (now : ℕ) (s s' : TcpState)
    → begin_attempt key now s ≡ some s'
    → s'.tcp_failures ≡ s.tcp_failures
unfolding begin_attempt
begin-failures key now s s' e =
    elim (Bool-cases
      (contains key s.tcp_connecting || later_than now (get key s.tcp_retry_after))) [
        | inl t ↦ cc (simp t at e)
        | inr f ↦ ap (λ x. x.tcp_failures) (sym (some_inj (simp f at e)))
      ]

begin_early :
    (key : Key) (now retry : ℕ) (s : TcpState)
    → get key s.tcp_retry_after ≡ some retry
    → now < retry
    → begin_attempt key now s ≡ none
unfolding begin_attempt
begin_early key now retry s q l = elim (Bool-cases (contains key s.tcp_connecting)) [
  | inl t ↦ simp t refl
  | inr f ↦ let late : ltb now retry ≡ true = lt→ltb now retry l in simp (f, q, late) refl
]

-- A dial that failed counts one failure more, and until the waiting time for so many failures in a
-- row is over, the next attempt is refused and changes nothing.
pub tcp_fallback_waits :
    (key : Key) (now later again : ℕ) (kind : ErrorKind) (outcome : Result (Unit {0}))
    → (s s' s'' : TcpState) → begin_attempt key now s ≡ some s'
    → tcp_fallback key now later (err kind) s ≡ (err kind, s'')
    → again
      < later
        + tcp_fallback_backoff (min (or_zero (get key s.tcp_failures) + 1) (2 ^ 32 - 1)) * 1000
    → (get key s''.tcp_failures ≡ some (min (or_zero (get key s.tcp_failures) + 1) (2 ^ 32 - 1)))
      × (tcp_fallback key again again outcome s'' ≡ (err ErrorKind.would_block, s''))
unfolding tcp_fallback after_begin
tcp_fallback_waits key now later again kind outcome s s' s'' b e l =
    let failed : end_attempt key (attempt_failure key later s').0 ≡ s'' =
      ap (λ t. t.1) (simp b at e) in
    let failures : ℕ = min (or_zero (get key s'.tcp_failures) + 1) (2 ^ 32 - 1) in
    let before : s'.tcp_failures ≡ s.tcp_failures = begin-failures key now s s' b in
    let counted : get key s''.tcp_failures ≡ some failures =
      ap (λ x. get key (TcpState.tcp_failures x)) (sym failed)
      ∙ unfold end_attempt in unfold attempt_failure in get-put key failures s'.tcp_failures in
    let retry : get key s''.tcp_retry_after ≡ some (later + tcp_fallback_backoff failures * 1000) =
      ap (λ x. get key (TcpState.tcp_retry_after x)) (sym failed)
      ∙ unfold end_attempt in unfold attempt_failure in get-put key _ s'.tcp_retry_after in
    let same_failures : failures ≡ min (or_zero (get key s.tcp_failures) + 1) (2 ^ 32 - 1) =
      ap (λ m. min (or_zero (get key m) + 1) (2 ^ 32 - 1)) before in
    (
      counted ∙ ap some same_failures,
      simp
          (begin_early key again _ s'' retry
            (subst (λ n. again < later + tcp_fallback_backoff n * 1000) (sym same_failures) l))
          refl,
    )
