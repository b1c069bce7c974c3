-- ===== src/Plugins/Start.antt =====
-- plugins/plugin.go: how a plugin is set up (`New`, `createClient`) and the loop of `StartPlugin`.
use dcos_metrics.Prelude.{
  ℕ, zero, suc, ◌+◌, ◌<◌, String, ◌≡◌, refl, ap, ◌∙◌, Bool, true, false, Option, none, some, List,
  [], ◌∷◌, ◌++◌, arith, ◌==◌, if◌then◌else◌,
}
use dcos_metrics.Prelude.Int.{ℤ, pos}
use dcos_metrics.Producers.{MetricsMessage}
use dcos_metrics.Plugins.Metrics.{Role, Api, is_master, master, metrics, agent, agent_public}
use mathlib.Core.List.{append-nil}

-- `Plugin`, less the hooks and the logger.
pub record Plugin : Type 0 where
  pub name : String
  pub role : String
  pub polling_interval : ℤ

abbrev pub new_plugin : Plugin
new_plugin = record { name = "default"; role = ""; polling_interval = pos 10 }

-- The options of option.go that set a field; `ExtraFlags` is the command line's and `ConnectorFunc` the argument `connect` below.
unfoldable pub with_polling_interval : ℤ → Plugin → Option Plugin
with_polling_interval i p = some (record p { polling_interval = i })

unfoldable pub with_name : String → Plugin → Option Plugin
with_name n p = some (record p { name = n })

-- The loop of `New` over the options. An error of one of them comes with the plugin as it is by then.
unfoldable pub new_with : List (Plugin → Option Plugin) → Plugin → Plugin × Bool
new_with [] p = (p, true)
new_with (o ∷ options) p = elim (o p) [ none ↦ (p, false) | some q ↦ new_with options q ]

unfoldable pub recognised : String → Option Role
recognised role =
    if role == "master"
    then some master
    else if role == "agent"
    then some agent
    else if role == "agent_public"
    then some agent_public
    else none

-- The network and the address of `createClient`.
unfoldable pub create_client : Bool → Role → String × String
create_client windows role = (
  (if windows then "tcp" else "unix"),
  (if is_master role
      then "/run/dcos/dcos-metrics-master.sock"
      else if windows
      then "localhost:9000"
      else "/run/dcos/dcos-metrics-agent.sock"),
)

pub data Ending : Type 0 where
  no_before no_role no_metrics no_connector : Ending

-- What the connector was called with, and the error that ended the loop; `none` is a loop that goes on.
abbrev pub Trace : Type 0
Trace = List (List MetricsMessage) × Option Ending

plus_zero : (i : ℕ) → i + 0 ≡ i
plus_zero i = omega arith

zero_plus : (i : ℕ) → 0 + i ≡ i
zero_plus i = omega arith

suc_plus : (i j : ℕ) → suc i + j ≡ suc (i + j)
suc_plus i j = omega arith

plus_suc : (i j : ℕ) → i + suc j ≡ suc i + j
plus_suc i j = omega arith

-- A round and the rounds after it, which an error in it leaves out.
abbrev pub after : Trace → Trace → Trace
after (d, some e) rest = (d, some e)
after (d, none) rest = (d ++ rest.0, rest.1)

-- `api i` is what the HTTP producer answers during the poll of number `i`, and `connect i` tells if the connector succeeds.
module _ (api : ℕ → Api) (connect : ℕ → List MetricsMessage → Bool) where
  -- The body of the loop.
  unfoldable pub poll_once : Role → ℕ → Trace
  poll_once role i = elim (metrics (api i) role) [
    | none ↦ ([], some no_metrics)
    | some ms ↦ (ms ∷ [], (if connect i ms then none else some no_connector))
  ]

  -- The first `n` rounds of the loop, from the poll of number `i`.
  unfoldable pub poll_loop : Role → ℕ → ℕ → Trace
  poll_loop role zero i = ([], none)
  poll_loop role (suc n) i = after (poll_once role i) (poll_loop role n (suc i))

  -- `StartPlugin`, for at most `n` rounds; `before` is the outcome of `BeforeFunc`.
  unfoldable pub start_plugin : Bool → Plugin → ℕ → Trace
  start_plugin before p n =
      if before
      then elim (recognised p.role) [ none ↦ ([], some no_role) | some role ↦ poll_loop role n 0 ]
      else ([], some no_before)

  poll_loop-ends :
      (role : Role) (n i : ℕ) (d : List (List MetricsMessage)) (e : Ending)
      → poll_once role i ≡ (d, some e)
      → poll_loop role (suc n) i ≡ (d, some e)
  unfolding poll_loop
  poll_loop-ends role n i d e h = ap (λ t. after t (poll_loop role n (suc i))) h

  abbrev pub Taken : Role → ℕ → List MetricsMessage → Type 0
  Taken role i got = (metrics (api i) role ≡ some got) × (connect i got ≡ true)

  poll_once-Taken :
      (role : Role) (i : ℕ) (got : List MetricsMessage)
      → Taken role i got
      → poll_once role i ≡ (got ∷ [], none)
  unfolding poll_once
  poll_once-Taken role i got (h, c) = rw (h, c, poll_once) refl

  poll_loop-goes :
      (role : Role) (n i : ℕ) (got : List MetricsMessage)
      → Taken role i got
      → poll_loop role (suc n) i
        ≡ (got ∷ (poll_loop role n (suc i)).0, (poll_loop role n (suc i)).1)
  unfolding poll_loop
  poll_loop-goes role n i got t =
      ap (λ r. after r (poll_loop role n (suc i))) (poll_once-Taken role i got t)

  -- The first `n` values from the one of number `i`.
  abbrev pub polls : (ℕ → List MetricsMessage) → ℕ → ℕ → List (List MetricsMessage)
  polls got zero i = []
  polls got (suc n) i = got i ∷ polls got n (suc i)

  poll_loop-split :
      (role : Role) (n m i : ℕ) (got : ℕ → List MetricsMessage)
      → ((j : ℕ) → j < n → Taken role (i + j) (got (i + j)))
      → poll_loop role (n + m) i
        ≡ (polls got n i ++ (poll_loop role m (i + n)).0, (poll_loop role m (i + n)).1)
  poll_loop-split role zero m i got good = rw (plus_zero i, zero_plus m) refl
  poll_loop-split role (suc n) m i got good =
      rw (suc_plus n m, plus_suc i n)
        (poll_loop-goes role (n + m) i (got i) (rw (plus_zero i) at (good 0 (omega arith)))
          ∙ ap (λ t. (got i ∷ t.0, t.1))
              (poll_loop-split role n m (suc i) got
                (λ j l. rw (plus_suc i j) at (good (suc j) (omega (arith, l))))))

  -- With a role that is recognised and a `BeforeFunc` that succeeds: if each of the polls before that of number `n` gives metrics that the connector takes, and round `n` ends with an error, the plugin stops after that round. The connector was called with the metrics of those polls, each once and in order, and the error is that of round `n`, after what it handed over. More rounds than that make no difference.
  pub start_plugin-stops :
      (p : Plugin) (role : Role) (n m : ℕ) (got : ℕ → List MetricsMessage)
      (last : List (List MetricsMessage)) (e : Ending)
      → recognised p.role ≡ some role
      → ((j : ℕ) → j < n → (metrics (api j) role ≡ some (got j)) × (connect j (got j) ≡ true))
      → poll_once role n ≡ (last, some e)
      → start_plugin true p (n + suc m) ≡ (polls got n 0 ++ last, some e)
  unfolding start_plugin
  start_plugin-stops p role n m got last e r good h = rw r (
      poll_loop-split role n (suc m) 0 got (λ j l. rw (zero_plus j) (good j l))
      ∙ ap (λ t. (polls got n 0 ++ t.0, t.1))
          (poll_loop-ends role m (0 + n) last e (rw (zero_plus n) h)))

  -- With a role that is recognised, a `BeforeFunc` that succeeds, and as long as every poll gives metrics that the connector takes, the plugin goes on, and the connector is called with the metrics of every poll, in order.
  pub start_plugin-goes_on :
      (p : Plugin) (role : Role) (n : ℕ) (got : ℕ → List MetricsMessage)
      → recognised p.role ≡ some role
      → ((j : ℕ) → j < n → (metrics (api j) role ≡ some (got j)) × (connect j (got j) ≡ true))
      → start_plugin true p n ≡ (polls got n 0, none)
  unfolding start_plugin poll_loop
  start_plugin-goes_on p role n got r good = rw r (
      (rw (plus_zero n) at (poll_loop-split role n 0 0 got (λ j l. rw (zero_plus j) (good j l))))
      ∙ ap (λ l. (l, none)) (append-nil (polls got n 0)))
