-- ===== src/Stats/Runs.antt =====
-- A listener with one slot.
use tg_ws_keenetic.Base.{◌≡◌, refl, [], ◌∷◌, arith}
use tg_ws_keenetic.Stats.{listen, Listener, accept_socket}
use tg_ws_keenetic.Stats.Connections.{Step, Reachable, IsCounted, reachable-IsCounted}

abbrev one : Listener
one = accept_socket 7 (listen 1)

abbrev two : Listener
two = accept_socket 8 one

two_runs : (two.tasks ≡ 7 ∷ []) × (two.counters.rejected ≡ 1) × (two.counters.connections_total ≡ 1)
unfolding accept_socket listen
two_runs = (refl, refl, refl)

reachable-IsCounted_example : IsCounted 1 two
reachable-IsCounted_example = reachable-IsCounted 1 (omega arith) two (
    Reachable.then_step one two
      (Reachable.then_step (listen 1) one Reachable.begins (Step.accepts (listen 1) one 7 refl))
      (Step.accepts one two 8 refl))
