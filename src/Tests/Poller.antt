-- ===== src/Tests/Poller.antt =====
-- Examples of the poller of the Mesos agent, alone and beside the handlers of the frameworks' connections.
use dcos_metrics.Tests.Agent
use dcos_metrics.Collectors.Agent.Messages.{
  Collector, messages_of, message_of, metrics_messages, get_container_metrics, get_agent_state,
  or_kept, dimensions_of,
}
use dcos_metrics.Prelude.{
  String, ◌≡◌, refl, sym, inl, Option, none, some, List, [], ◌∷◌, ◌++◌, arith, ◌==◌, if◌then◌else◌,
  Elem, insert, find?, Elem-append_left, ℕ,
}
use dcos_metrics.Collectors.Agent.Poller.{
  Poll, poll, poll_containers, Decoders, poll_state, run_poller, fetch_state, fetch_containers,
  fetched,
}
use dcos_metrics.Collectors.Agent.Poller.Progress.{IsAuthorized, run_poller-IsCurrent}
use dcos_metrics.Service.Client.{Response, fetch}
use dcos_metrics.Prelude.Int.{pos}
use dcos_metrics.Service.{ok}
use dcos_metrics.Collectors.Agent.Poller.Laws.{
  IsCurrent, run_poller-Describes, poll-parts, run_poller-ok,
}
use dcos_metrics.Producers.{MetricsMessage}
use dcos_metrics.Collectors.Agent.{AgentContainer}
use dcos_metrics.Collectors.Agent.Messages.Descriptions.{Describes}
use dcos_metrics.Collectors.Agent.Tasks.{
  update, update_frameworks, update_executors, update_tasks, update_statuses,
  get_framework_info_by_framework_id, get_executor_info_by_executor_id, get_labels_by_container_id,
  find_container,
}
use dcos_metrics.Collectors.Agent.Datapoints.{create_container_datapoints}
use mathlib.Core.Path.{subst}

abbrev json : Decoders
json = record {
  decode_state = λ b s. if b == "state" then Agent.state else s;
  decode_containers = λ b cs. if b == "containers" then Agent.container ∷ [] else cs;
}

abbrev answer : String → Option Response
answer b = some (record { status_code = 200; body = some b })

abbrev first : Poll
first = record {
  now = pos 200;
  this_time = Agent.time;
  state = answer "state";
  containers = answer "containers";
}

-- A poll that the agent does not answer.
abbrev second : Poll
second = record { now = pos 260; this_time = Agent.time; state = none; containers = none }

authorized : (b : String) → IsAuthorized (answer b)
authorized b r e = let code : 200 ≡ r.status_code = cc in λ h. omega (arith, code, h)

unanswered : IsAuthorized none
unanswered r e = absurd (cc)

run_poller-IsCurrent_example :
    (c : Collector) × ((run_poller json Agent.print (first ∷ second ∷ []) Agent.collector).1 ≡ ok c)
    × IsCurrent json second c
run_poller-IsCurrent_example =
    run_poller-IsCurrent json Agent.print (first ∷ []) second Agent.collector
      ((authorized "state", authorized "containers"), ((unanswered, unanswered), tt))

abbrev informed : Collector
informed = record Agent.collector {
  timestamp = pos 200;
  container_task_rels =
      ("web", record { id = "t1"; name = "job"; labels = []; statuses = [] }) ∷ [];
}

state_fetched : poll_state json first Agent.collector ≡ ok informed
unfolding poll_state fetch_state fetched fetch get_agent_state or_kept update update_frameworks
    update_executors update_tasks update_statuses insert
state_fetched = refl

containers_fetched : poll_containers json first informed ≡ ok informed
unfolding poll_containers fetch_containers fetched fetch get_container_metrics or_kept
containers_fetched = refl

abbrev described : MetricsMessage
described = record Agent.the_message { timestamp = pos 200 }

in_poll : Elem described (metrics_messages Agent.print Agent.time informed)
unfolding metrics_messages messages_of message_of create_container_datapoints
    get_framework_info_by_framework_id find? get_executor_info_by_executor_id dimensions_of
    get_labels_by_container_id find_container
in_poll = inl refl

described_sent : Elem described (run_poller json Agent.print (first ∷ []) Agent.collector).0
unfolding run_poller
described_sent =
    let polled_once =
      poll-parts json first Agent.collector informed informed state_fetched containers_fetched in
    subst (λ r. Elem described r.0)
      (sym (run_poller-ok json Agent.print first [] Agent.collector informed polled_once))
      (Elem-append_left described (metrics_messages Agent.print Agent.time informed) [] in_poll)

run_poller-Describes_example :
    (before : List Poll) × (p : Poll) × (after : List Poll) × (c₀ : Collector) × (c₁ : Collector)
    × (cm : AgentContainer) × (n : ℕ) × ((first ∷ []) ≡ before ++ p ∷ after)
    × ((run_poller json Agent.print before Agent.collector).1 ≡ ok c₀)
    × (poll json p c₀ ≡ ok c₁)
    × IsCurrent json p c₁
    × Elem cm c₁.container_metrics
    × Describes Agent.print (p.this_time n) c₁ cm described
    × (MetricsMessage.timestamp described ≡ p.now)
run_poller-Describes_example =
    run_poller-Describes json Agent.print (first ∷ []) Agent.collector described described_sent
