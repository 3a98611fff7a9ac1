-- ===== src/Upstream/Domains/Workers.antt =====
-- What `worker` finds among the Workers of the configuration.
use tg_ws_keenetic.Base.{
  ℕ, ◌≤◌, ◌≡◌, refl, sym, ap, ◌∙◌, inl, inr, none, List, [], ◌∷◌, arith, Bool-cases, Result, ok,
  err, ErrorKind,
}
use tg_ws_keenetic.Base.Bytes.{bytes_eq, bytes_eq→eq, bytes_eq_refl}
use tg_ws_keenetic.Config.{Text, Config}
use tg_ws_keenetic.Upstream.Direct.{WsDial}
use tg_ws_keenetic.Upstream.Domains.{
  Domains, CfDial, socket_of, count_error, after_worker, try_workers, worker_dial, worker,
}
use tg_ws_keenetic.Upstream.Domains.Orders.{count, Permutes}

-- No name gives a socket, or the socket is one that a name gives.
abbrev pub Serves : (Text → Result ℕ) → List Text → Result ℕ → Type 0
Serves outcome domains (err kind) = (x : Text) → 1 ≤ count x domains → socket_of (outcome x) ≡ none
Serves outcome domains (ok socket) = (x : Text) × (1 ≤ count x domains) × (outcome x ≡ ok socket)

module _ (dialling : Text → CfDial) where
  abbrev outcome : Text → Result ℕ
  outcome x = (dialling x).outcome

  Serves-more :
      (domain : Text) (domains : List Text) (r : Result ℕ)
      → socket_of (outcome domain) ≡ none
      → Serves outcome domains r
      → Serves outcome (domain ∷ domains) r
  Serves-more domain domains (err kind) e serves = λ x there.
      elim (Bool-cases (bytes_eq x domain)) [
        | inl same ↦ ap (λ t. socket_of (outcome t)) (bytes_eq→eq x domain same) ∙ e
        | inr other ↦ serves x (ground (arith, there))
      ]
  Serves-more domain domains (ok socket) e (found, there, opened) =
      (found, ground (arith, there), opened)

  after_worker-Serves :
      (domain : Text) (domains : List Text) (r : Result ℕ)
      (next : ErrorKind → Domains → Result ℕ × Domains) (s : Domains)
      → outcome domain ≡ r
      → ((kind : ErrorKind) (s : Domains) → Serves outcome domains (next kind s).0)
      → Serves outcome (domain ∷ domains) (after_worker dialling r next s).0
  unfolding after_worker
  after_worker-Serves domain domains (ok socket) next s e go =
      (domain, ground (arith, bytes_eq_refl domain), e)
  after_worker-Serves domain domains (err kind) next s e go =
      Serves-more domain domains (next kind (count_error s)).0 (ap socket_of e)
        (go kind (count_error s))

  try_workers-Serves :
      (domains : List Text) (last : ErrorKind) (s : Domains)
      → Serves outcome domains (try_workers dialling domains last s).0
  unfolding try_workers
  try_workers-Serves [] last s = λ x there. absurd (ground (arith, there))
  try_workers-Serves (domain ∷ domains) last s =
      after_worker-Serves domain domains (dialling domain).outcome
        (λ kind s. try_workers dialling domains kind s) ((dialling domain).others s) refl
        (λ kind s. try_workers-Serves domains kind s)

Serves-shuffle :
    (outcome : Text → Result ℕ) (shuffle : List Text → List Text) (domains : List Text)
    (r : Result ℕ)
    → Permutes shuffle
    → Serves outcome (shuffle domains) r
    → Serves outcome domains r
Serves-shuffle outcome shuffle domains (err kind) permutes serves =
    λ x there. serves x (rw (permutes domains x) there)
Serves-shuffle outcome shuffle domains (ok socket) permutes (found, there, opened) =
    (found, rw (sym (permutes domains found)) there, opened)

-- Where shuffling permutes a list: the route over the Workers fails only when the dial of every one
-- of them fails, and a socket that it gives is from the dial of one of them.
pub worker-Serves :
    (shuffle : List Text → List Text) (config : Config) (ws : WsDial → CfDial) (dc : ℕ) (ip : Text)
    (s : Domains)
    → Permutes shuffle
    → Serves
        (λ domain. (ws (worker_dial config dc ip domain)).outcome)
        config.cfproxy_worker_domains
        (worker config shuffle ws dc ip s).0
unfolding worker
worker-Serves shuffle config ws dc ip s permutes =
    let dialling = λ (domain : Text). ws (worker_dial config dc ip domain) in
    let domains = config.cfproxy_worker_domains in
    Serves-shuffle (λ domain. (dialling domain).outcome) shuffle domains
      (worker config shuffle ws dc ip s).0 permutes
      (try_workers-Serves dialling (shuffle domains) ErrorKind.not_connected s)
