-- ===== src/Stats/Connections.antt =====
-- The count of active connections against the tasks that serve them, and the slots.
use tg_ws_keenetic.Base.{
  ℕ, ◌+◌, ◌^◌, ◌<◌, ◌≡◌, refl, sym, ◌∙◌, true, List, [], ◌∷◌, arith, ◌==◌, either, length,
}
use mathlib.Core.Path.{subst}
use tg_ws_keenetic.Stats.{
  Counters, no_counts, accepted, closed, Event, increment, add_up, add_down, Listener, listen,
  accept_socket, without_task, is_running, end_task,
}

-- One event of the listener or of the tasks that it started.
pub data Step : Listener → Listener → Type 0 where
  accepts : (l l' : Listener) (task : ℕ) → l' ≡ accept_socket task l → Step l l'
  ends : (l l' : Listener) (task : ℕ) → l' ≡ end_task task l → Step l l'
  happens :
      (l l' : Listener) (event : Event)
      → l' ≡ record l { counters = increment event l.counters }
      → Step l l'
  uploads : (l l' : Listener) (n : ℕ) → l' ≡ record l { counters = add_up n l.counters } → Step l l'
  downloads :
      (l l' : Listener) (n : ℕ) → l' ≡ record l { counters = add_down n l.counters } → Step l l'

pub data Reachable (max_connections : ℕ) : Listener → Type 0 where
  begins : Reachable max_connections (listen max_connections)
  then_step :
      (l l' : Listener) → Reachable max_connections l → Step l l' → Reachable max_connections l'

pub record IsCounted (max_connections : ℕ) (l : Listener) : Type 0 where
  pub active : l.counters.connections_active ≡ length l.tasks
  pub slots : l.free_slots + length l.tasks ≡ max_connections

length-without_task :
    (task : ℕ) (tasks : List ℕ)
    → is_running task tasks ≡ true
    → length (without_task task tasks) + 1 ≡ length tasks
length-without_task task [] h = cc h
length-without_task task (t ∷ tasks) h = ground (arith, length-without_task task tasks)

module _ (max_connections : ℕ) (bound : max_connections < 2 ^ 64) where
  accept_socket-IsCounted :
      (task : ℕ) (l : Listener)
      → IsCounted max_connections l
      → IsCounted max_connections (accept_socket task l)
  unfolding accept_socket accepted increment
  accept_socket-IsCounted task l h =
      either (IsCounted max_connections) (l.free_slots == 0)
        (λ _. record { active = h.active; slots = h.slots })
        (λ free. record {
          active = ground (arith, h.active, h.slots);
          slots = ground (arith, h.slots);
        })

  end_task-IsCounted :
      (task : ℕ) (l : Listener)
      → IsCounted max_connections l
      → IsCounted max_connections (end_task task l)
  unfolding end_task closed
  end_task-IsCounted task l h =
      either (IsCounted max_connections) (is_running task l.tasks)
        (λ running.
          let fewer = length-without_task task l.tasks running in
          record { active = omega (arith, h.active, fewer); slots = omega (arith, h.slots, fewer) })
        (λ _. h)

  increment-active :
      (event : Event) (c : Counters) → (increment event c).connections_active ≡ c.connections_active
  unfolding increment
  increment-active Event.bad c = refl
  increment-active Event.masked c = refl
  increment-active Event.ws c = refl
  increment-active Event.cf c = refl
  increment-active Event.h2 c = refl
  increment-active Event.h2_tcp c = refl
  increment-active Event.h2_request c = refl
  increment-active Event.h2_error c = refl
  increment-active Event.tcp c = refl
  increment-active Event.fronting c = refl
  increment-active Event.refused c = refl
  increment-active Event.ws_error c = refl
  increment-active Event.pool_hit c = refl
  increment-active Event.pool_miss c = refl

  pub step-IsCounted :
      (l l' : Listener) → Step l l' → IsCounted max_connections l → IsCounted max_connections l'
  unfolding add_up add_down
  step-IsCounted _ _ (Step.accepts l l' task e) h =
      subst (IsCounted max_connections) (sym e) (accept_socket-IsCounted task l h)
  step-IsCounted _ _ (Step.ends l l' task e) h =
      subst (IsCounted max_connections) (sym e) (end_task-IsCounted task l h)
  step-IsCounted _ _ (Step.happens l l' event e) h =
      subst (IsCounted max_connections) (sym e)
        (record { active = increment-active event l.counters ∙ h.active; slots = h.slots })
  step-IsCounted _ _ (Step.uploads l l' n e) h =
      subst (IsCounted max_connections) (sym e) (record { active = h.active; slots = h.slots })
  step-IsCounted _ _ (Step.downloads l l' n e) h =
      subst (IsCounted max_connections) (sym e) (record { active = h.active; slots = h.slots })

  -- Where the bound on connections is below 2^64, and in whatever order sockets come in and tasks
  -- end: the connections that are counted as active are those of the tasks that live, and these
  -- and the free slots make up the bound.
  pub reachable-IsCounted :
      (l : Listener) → Reachable max_connections l → IsCounted max_connections l
  unfolding listen no_counts
  reachable-IsCounted _ Reachable.begins = record { active = refl; slots = omega arith }
  reachable-IsCounted _ (Reachable.then_step l l' r st) =
      step-IsCounted l l' st (reachable-IsCounted l r)
