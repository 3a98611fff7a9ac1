-- ===== src/Stats.antt =====
-- `src/stats.rs`: the counters. They are 64 bits wide and an addition wraps around, as in a release
-- build. The text of the snapshot, which serde makes, and the uptime are left out.
pub mod Connections
mod Runs
use tg_ws_keenetic.Base.{
  ℕ, zero, suc, ◌+◌, ◌-◌, ◌*◌, ◌/◌, ◌%◌, ◌^◌, ◌≤◌, ◌<◌, min, max, bit_xor, ◌≡◌, refl, sym, ap, ◌∙◌,
  ◌≢◌, ◌↔◌, ◌⊎◌, inl, inr, Bool, true, false, not, ◌&&◌, ◌||◌, Option, none, some, List, [], ◌∷◌,
  ◌++◌, append_assoc, append-nil, arith, ltb, leb, ◌==◌, if◌then◌else◌, ltb→lt, lt→ltb, leb→le,
  ==_iff, tests, Bool-cases, and-true, either, not-true, not-false, or-false, Option-cases,
  some_inj, length, get_elem?, get_or, take, drop, replicate, All, length-append, length-take,
  length-drop, length-replicate, take-append-drop, take_at, drop_at, take-append, slice-append,
  slice-take, get_or-drop, get_or-append, take_all, drop_all, drop_nil, drop-drop, Result, ok, err,
  ErrorKind, ◌>>=◌, ◌>>◌, reject, ok_inj,
}
use tg_ws_keenetic.Base.Bytes.{
  Bytes, IsByte, to_le_u16, to_be_u16, to_le_u32, from_le_u32, bytes_eq, bytes_eq→eq, bytes_eq_refl,
  bytes_eq_iff,
}

pub record Counters : Type 0 where
  pub connections_total : ℕ
  pub connections_active : ℕ
  pub connections_bad : ℕ
  pub connections_masked : ℕ
  pub connections_ws : ℕ
  pub connections_cfproxy : ℕ
  pub connections_h2 : ℕ
  pub h2_tcp_connections : ℕ
  pub h2_requests : ℕ
  pub h2_errors : ℕ
  pub connections_tcp_fallback : ℕ
  pub connections_fronting : ℕ
  pub rejected : ℕ
  pub ws_errors : ℕ
  pub bytes_up : ℕ
  pub bytes_down : ℕ
  pub pool_hits : ℕ
  pub pool_misses : ℕ

abbrev pub wrap : ℕ → ℕ
wrap n = n % 2 ^ 64

unfoldable pub no_counts : Counters
no_counts = record {
  connections_total = 0;
  connections_active = 0;
  connections_bad = 0;
  connections_masked = 0;
  connections_ws = 0;
  connections_cfproxy = 0;
  connections_h2 = 0;
  h2_tcp_connections = 0;
  h2_requests = 0;
  h2_errors = 0;
  connections_tcp_fallback = 0;
  connections_fronting = 0;
  rejected = 0;
  ws_errors = 0;
  bytes_up = 0;
  bytes_down = 0;
  pool_hits = 0;
  pool_misses = 0;
}

unfoldable pub accepted : Counters → Counters
accepted c = record c {
  connections_total = wrap (c.connections_total + 1);
  connections_active = wrap (c.connections_active + 1);
}

unfoldable pub closed : Counters → Counters
closed c = record c { connections_active = c.connections_active - 1 }

-- The methods that `increment!` makes.
pub data Event : Type 0 where
  bad masked ws cf h2 h2_tcp h2_request h2_error tcp fronting refused ws_error pool_hit pool_miss :
      Event

unfoldable pub increment : Event → Counters → Counters
increment bad c = record c { connections_bad = wrap (c.connections_bad + 1) }
increment masked c = record c { connections_masked = wrap (c.connections_masked + 1) }
increment ws c = record c { connections_ws = wrap (c.connections_ws + 1) }
increment cf c = record c { connections_cfproxy = wrap (c.connections_cfproxy + 1) }
increment h2 c = record c { connections_h2 = wrap (c.connections_h2 + 1) }
increment h2_tcp c = record c { h2_tcp_connections = wrap (c.h2_tcp_connections + 1) }
increment h2_request c = record c { h2_requests = wrap (c.h2_requests + 1) }
increment h2_error c = record c { h2_errors = wrap (c.h2_errors + 1) }
increment tcp c = record c { connections_tcp_fallback = wrap (c.connections_tcp_fallback + 1) }
increment fronting c = record c { connections_fronting = wrap (c.connections_fronting + 1) }
increment refused c = record c { rejected = wrap (c.rejected + 1) }
increment ws_error c = record c { ws_errors = wrap (c.ws_errors + 1) }
increment pool_hit c = record c { pool_hits = wrap (c.pool_hits + 1) }
increment pool_miss c = record c { pool_misses = wrap (c.pool_misses + 1) }

unfoldable pub add_up : ℕ → Counters → Counters
add_up n c = record c { bytes_up = wrap (c.bytes_up + n) }

unfoldable pub add_down : ℕ → Counters → Counters
add_down n c = record c { bytes_down = wrap (c.bytes_down + n) }

-- The loop of `Proxy::start` on its events: a socket that comes in takes one of the slots, for as
-- long as its task lives, or is turned away; a task that ends drops its `Active` and its permit.
pub record Listener : Type 0 where
  pub counters : Counters
  pub free_slots : ℕ
  pub tasks : List ℕ

unfoldable pub listen : ℕ → Listener
unfolding no_counts
listen max_connections = record { counters = no_counts; free_slots = max_connections; tasks = [] }

unfoldable pub accept_socket : ℕ → Listener → Listener
unfolding accepted increment
accept_socket task l =
    if l.free_slots == 0 then record l { counters = increment refused l.counters } else record {
      counters = accepted l.counters;
      free_slots = l.free_slots - 1;
      tasks = task ∷ l.tasks;
    }

-- `tasks` without the one that has ended.
abbrev pub without_task : ℕ → List ℕ → List ℕ
without_task task [] = []
without_task task (t ∷ tasks) = if t == task then tasks else t ∷ without_task task tasks

abbrev pub is_running : ℕ → List ℕ → Bool
is_running task [] = false
is_running task (t ∷ tasks) = if t == task then true else is_running task tasks

unfoldable pub end_task : ℕ → Listener → Listener
unfolding closed
end_task task l =
    if is_running task l.tasks
    then record {
      counters = closed l.counters;
      free_slots = l.free_slots + 1;
      tasks = without_task task l.tasks;
    }
    else l
