-- ===== src/Collectors/Agent/Poller.antt =====
-- collectors/mesos/agent/agent.go: `New`, and the endless loop of `RunPoller` as its rounds, one for each pair of answers.
pub mod Laws
pub mod Progress
use dcos_metrics.Prelude.{
  ℕ, zero, suc, ◌+◌, ◌-◌, ◌≤◌, ◌<◌, String, ◌≡◌, refl, sym, ap, ◌∙◌, ◌≢◌, ◌⊎◌, inl, inr, Bool, true,
  false, ◌&&◌, ◌||◌, not, Option, none, some, List, [], ◌∷◌, ◌++◌, arith, ◌==◌, eq_iff,
  if◌then◌else◌,
}
use dcos_metrics.Prelude.Int.{ℤ}
use dcos_metrics.Service.Client.{Response, fetch}
use dcos_metrics.Service.{Result, ◌>>>◌, ok, failed, exited}
use dcos_metrics.Collectors.Agent.Datapoints.{Printing}
use dcos_metrics.Collectors.Agent.{AgentState, AgentContainer}
use dcos_metrics.Collectors.Agent.Messages.{
  Collector, Fetched, metrics_messages, get_agent_state, no_state, answered, get_container_metrics,
}
use dcos_metrics.Collectors.{NodeInfo}
use dcos_metrics.Producers.{MetricsMessage}
use dcos_metrics.Collectors.Agent.Tasks.{ContainerTaskRels, update}

-- `New`.
unfoldable pub new_collector : Collector → NodeInfo → ContainerTaskRels → Collector
new_collector cfg node_info rels = record cfg { node_info = node_info; container_task_rels = rels }

-- What one round meets: the clock at its begin and at each container, and what the agent answers to /state and to /containers.
pub record Poll : Type 0 where
  pub now : ℤ
  pub this_time : ℕ → String
  pub state : Option Response
  pub containers : Option Response

-- encoding/json: what `Unmarshal` makes of a target that held a value. Its errors are only logged.
pub record Decoders : Type 0 where
  pub decode_state : String → AgentState → AgentState
  pub decode_containers : String → List AgentContainer → List AgentContainer

-- `Fetch` into a target, when its error is logged by the caller. A process that ends has no target.
unfoldable pub fetched {ℓ} : {A : Type ℓ} → Result A → Result (Fetched A)
fetched (ok a) = ok (answered a)
fetched (failed e) = ok Fetched.failed
fetched (exited n) = exited n

module _ (json : Decoders) where
  open json use {decode_state, decode_containers}

  unfoldable pub fetch_state : Option Response → Result (Fetched AgentState)
  fetch_state resp = fetched (fetch (λ b. some (decode_state b no_state)) resp)

  unfoldable pub fetch_containers :
      Option Response → Collector → Result (Fetched (List AgentContainer))
  fetch_containers resp c =
      fetched (fetch (λ b. some (decode_containers b c.container_metrics)) resp)

  -- The two parts of `pollMesosAgent`: up to the relations of containers to tasks, and the rest.
  unfoldable pub poll_state : Poll → Collector → Result Collector
  poll_state p c = fetch_state p.state >>> λ state.
      let c₁ = get_agent_state state (record c { timestamp = p.now }) in
      ok (record c₁ { container_task_rels = update c₁.agent_state c₁.container_task_rels })

  unfoldable pub poll_containers : Poll → Collector → Result Collector
  poll_containers p c =
      fetch_containers p.containers c >>> λ containers. ok (get_container_metrics containers c)

  unfoldable pub poll : Poll → Collector → Result Collector
  poll p c = poll_state p c >>> poll_containers p

  module _ (print : Printing) where
    -- The loop of `RunPoller`: what it has sent, and its collector or the end of the process.
    unfoldable pub run_poller : List Poll → Collector → List MetricsMessage × Result Collector
    run_poller [] c = ([], ok c)
    run_poller (p ∷ ps) c = elim (poll p c) [
      | ok c' ↦
          (metrics_messages print p.this_time c' ++ (run_poller ps c').0, (run_poller ps c').1)
      | failed e ↦ ([], failed e)
      | exited n ↦ ([], exited n)
    ]
