-- ===== src/Plugins/PromText/Lifecycle.antt =====
-- plugins/prometheus/prometheus.go: `startPromServer` and `stopPromServer`, the hooks that run before and after the plugin.
use dcos_metrics.Prelude.{
  ℕ, ◌+◌, String, ◌≡◌, refl, inl, inr, Bool, true, false, Option, none, some, List, [], ◌∷◌, arith,
  if◌then◌else◌, ◌<>◌, Option-cases,
}
use dcos_metrics.Prelude.Int.{ℤ}

-- The globals `registerOnce` and `listener`, and how often the handler of /metrics was registered, which must not happen twice.
pub record Globals (Listener : Type 0) : Type 0 where
  pub register_once : Bool
  pub registered : ℕ
  pub listener : Option Listener

module _ {Listener : Type 0} (print_int : ℤ → String) (listen : String → Option Listener) where
  unfoldable pub once : Globals Listener → Globals Listener
  once g =
      if g.register_once
      then g
      else record g { register_once = true; registered = g.registered + 1 }

  -- The new globals, and whether there was no error. A failed `net.Listen` leaves no listener.
  unfoldable pub start_prom_server : ℤ → Globals Listener → Globals Listener × Bool
  start_prom_server port g = elim (listen (":" <> print_int port)) [
    | none ↦ (record (once g) { listener = none }, false)
    | some l ↦ (record (once g) { listener = some l }, true)
  ]

  -- `none` is the panic of a call on no listener; else the listener that is closed.
  unfoldable pub stop_prom_server : Globals Listener → Option Listener
  stop_prom_server g = g.listener

  -- Any number of starts.
  unfoldable pub start_all : List ℤ → Globals Listener → Globals Listener
  start_all [] g = g
  start_all (port ∷ ports) g = start_all ports (start_prom_server port g).0

  -- The handler was registered once if it is said to be, and else not at all.
  abbrev pub IsOnce : Globals Listener → Type 0
  IsOnce g = g.registered ≡ (if g.register_once then 1 else 0)

  start-IsOnce : (port : ℤ) (g : Globals Listener) → IsOnce g → IsOnce (start_prom_server port g).0
  unfolding start_prom_server once
  start-IsOnce port g h = elim (Option-cases (listen (":" <> print_int port))) [
    | inl n ↦ rw (n, start_prom_server) (ground (arith, h))
    | inr (l, e) ↦ rw (e, start_prom_server) (ground (arith, h))
  ]

  -- However often the server is started, the handler is registered at most once.
  pub start_all-IsOnce :
      (ports : List ℤ) (g : Globals Listener) → IsOnce g → IsOnce (start_all ports g)
  unfolding start_all
  start_all-IsOnce [] g h = h
  start_all-IsOnce (port ∷ ports) g h =
      start_all-IsOnce ports (start_prom_server port g).0 (start-IsOnce port g h)

  -- A server that could not be started cannot be stopped: the hook after the plugin panics.
  pub stop-after_failure :
      (port : ℤ) (g : Globals Listener)
      → (start_prom_server port g).1 ≡ false
      → stop_prom_server (start_prom_server port g).0 ≡ none
  unfolding start_prom_server stop_prom_server
  stop-after_failure port g h = elim (Option-cases (listen (":" <> print_int port))) [
    | inl n ↦ rw (n, start_prom_server) refl
    | inr (l, e) ↦ absurd (ground (arith, e, h))
  ]
