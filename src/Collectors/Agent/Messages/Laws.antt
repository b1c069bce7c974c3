-- ===== src/Collectors/Agent/Messages/Laws.antt =====
-- Which containers get a message, and what is in it.
use dcos_metrics.Prelude.{
  String, ◌≡◌, refl, sym, ap, ◌∙◌, inl, inr, none, some, List, [], ◌∷◌, ◌++◌, arith, Option-cases,
  Elem, latest, ℕ, suc,
}
use dcos_metrics.Collectors.Agent.Datapoints.{
  Printing, create_container_datapoints, add_dps, container_tags, blkio_datapoints,
}
use dcos_metrics.Collectors.Agent.Messages.{
  Collector, message_of, messages_of, metrics_messages, poll_mesos_agent, Fetched, get_agent_state,
  get_container_metrics, failed, or_kept, no_state,
}
use mathlib.Core.Path.{subst}
use dcos_metrics.Collectors.Agent.{
  AgentContainer, FrameworkInfo, ExecutorInfo, ResourceStatistics, AgentState,
}
use dcos_metrics.Producers.{MetricsMessage}
use dcos_metrics.Collectors.Agent.Tasks.{
  get_framework_info_by_framework_id, get_executor_info_by_executor_id, get,
}
use dcos_metrics.Prelude.Int.{ℤ}
use dcos_metrics.Collectors.Agent.Tasks.Laws.{placements, get-update}
use dcos_metrics.Collectors.Agent.Messages.Descriptions.{built, Describes, message_of-Describes}

module _ (print : Printing) (c : Collector) where
  messages_of-none :
      (ts : ℕ → String) (cm : AgentContainer) (cms : List AgentContainer)
      → message_of print (ts 0) c cm ≡ none
      → messages_of print ts c (cm ∷ cms) ≡ messages_of print (λ n. ts (suc n)) c cms
  unfolding messages_of
  messages_of-none ts cm cms n = rw (n, messages_of) refl

  messages_of-some :
      (ts : ℕ → String) (cm : AgentContainer) (cms : List AgentContainer) (m : MetricsMessage)
      → message_of print (ts 0) c cm ≡ some m
      → messages_of print ts c (cm ∷ cms) ≡ m ∷ messages_of print (λ n. ts (suc n)) c cms
  unfolding messages_of
  messages_of-some ts cm cms m e = rw (e, messages_of) refl

  messages_of_sound :
      (ts : ℕ → String) (cms : List AgentContainer) (m : MetricsMessage)
      → Elem m (messages_of print ts c cms)
      → (cm : AgentContainer) × (n : ℕ) × Elem cm cms × Describes print (ts n) c cm m
  unfolding messages_of
  messages_of_sound ts [] m h = absurd h
  messages_of_sound ts (cm ∷ cms) m h =
      let later : ℕ → String = λ n. ts (suc n) in
      elim (Option-cases (message_of print (ts 0) c cm)) [
        | inl e ↦
            let (x, n, i, d) =
              messages_of_sound later cms m (subst (Elem m) (messages_of-none ts cm cms e) h) in
            (x, suc n, inr i, d)
        | inr (m', e) ↦
            elim (let i : Elem m (m' ∷ messages_of print later c cms) =
                subst (Elem m) (messages_of-some ts cm cms m' e) h in
              i) [
                | inl same ↦ (
                  cm,
                  0,
                  inl refl,
                  message_of-Describes print (ts 0) c cm m (e ∙ ap some (sym same)),
                )
                | inr i ↦ let (x, n, j, d) = messages_of_sound later cms m i in (x, suc n, inr j, d)
              ]
      ]

  -- A container that gets a message at any time gets one in its round.
  messages_of_complete :
      (ts : ℕ → String) (cms : List AgentContainer) (cm : AgentContainer)
      → Elem cm cms
      → ((time : String) → (m : MetricsMessage) × (message_of print time c cm ≡ some m))
      → (m : MetricsMessage) × (n : ℕ) × Elem m (messages_of print ts c cms)
        × Describes print (ts n) c cm m
  messages_of_complete ts [] cm h made = absurd h
  messages_of_complete ts (x ∷ cms) cm (inl same) made =
      let (m, e) = made (ts 0) in
      (
        m,
        0,
        rw (messages_of-some ts x cms m (ap (message_of print (ts 0) c) (sym same) ∙ e)) (inl refl),
        message_of-Describes print (ts 0) c cm m e,
      )
  messages_of_complete ts (x ∷ cms) cm (inr h) made =
      let (m, n, i, d) = messages_of_complete (λ k. ts (suc k)) cms cm h made in
      elim (Option-cases (message_of print (ts 0) c x)) [
        | inl e ↦ (m, suc n, rw (messages_of-none ts x cms e) i, d)
        | inr (m', e') ↦ (m, suc n, rw (messages_of-some ts x cms m' e') (inr i), d)
      ]

  message_of-some :
      (cm : AgentContainer) (s : ResourceStatistics) (fi : FrameworkInfo) (ei : ExecutorInfo)
      → cm.statistics ≡ some s
      → get_framework_info_by_framework_id cm.framework_id c.agent_state.frameworks ≡ some fi
      → get_executor_info_by_executor_id cm.executor_id fi.executors ≡ some ei
      → (ts : String) → (m : MetricsMessage) × (message_of print ts c cm ≡ some m)
  unfolding message_of create_container_datapoints
  message_of-some cm s fi ei e f g ts =
      let dps =
        add_dps (container_tags cm) ts s ++ blkio_datapoints print s.blkio (container_tags cm) ts in
      let made : create_container_datapoints print cm ts ≡ some dps = ground (arith, e) in
      (built print ts c cm dps fi ei, ground (arith, made, f, g))

  module _ (this_time : ℕ → String) where
    -- Each message describes one of the containers that the last poll left: it has that container's datapoints at the time of its round, the time of the poll, the node, the container's labels, the name of the framework that the state lists under the container's framework id, and the task of the executor that the framework lists under its executor id.
    pub metrics_messages_sound :
        (m : MetricsMessage)
        → Elem m (metrics_messages print this_time c)
        → (cm : AgentContainer) × (n : ℕ) × Elem cm c.container_metrics
          × Describes print (this_time n) c cm m
    unfolding metrics_messages
    metrics_messages_sound m h = messages_of_sound this_time c.container_metrics m h

    -- A container with statistics whose framework is found in the agent's state, and its executor in that framework, gets a message that describes it, at the time of one of the rounds.
    pub metrics_messages_complete :
        (cm : AgentContainer) (s : ResourceStatistics) (fi : FrameworkInfo) (ei : ExecutorInfo)
        → Elem cm c.container_metrics
        → cm.statistics ≡ some s
        → get_framework_info_by_framework_id cm.framework_id c.agent_state.frameworks ≡ some fi
        → get_executor_info_by_executor_id cm.executor_id fi.executors ≡ some ei
        → (m : MetricsMessage) × (n : ℕ) × Elem m (metrics_messages print this_time c)
          × Describes print (this_time n) c cm m
    unfolding metrics_messages
    metrics_messages_complete cm s fi ei h e f g =
        messages_of_complete this_time c.container_metrics cm h (message_of-some cm s fi ei e f g)

-- When the containers cannot be fetched, each message has the datapoints of a container that the poll before left, made at the time of a round of this poll, and the time of this poll.
pub poll_failed_restamps :
    (print : Printing) (this_time : ℕ → String) (now : ℤ) (state : Fetched AgentState)
    (c : Collector) (m : MetricsMessage)
    → Elem m (metrics_messages print this_time (poll_mesos_agent now state failed c))
    → (cm : AgentContainer) × (n : ℕ) × Elem cm c.container_metrics
      × (create_container_datapoints print cm (this_time n) ≡ some m.datapoints)
      × (m.timestamp ≡ now)
poll_failed_restamps print this_time now state c m h =
    unfold poll_mesos_agent get_agent_state get_container_metrics or_kept in
    let (cm, n, i, d) =
      metrics_messages_sound print (poll_mesos_agent now state failed c) this_time m h in
    (cm, n, i, d.datapoints, d.time)

-- After a poll that was answered the tasks are those of the answer's statuses, and without an answer
-- there are none.
pub get-poll_mesos_agent :
    (now : ℤ) (state : Fetched AgentState) (containers : Fetched (List AgentContainer))
    (c : Collector) (container_id : String)
    → get (Collector.container_task_rels (poll_mesos_agent now state containers c)) container_id
      ≡ latest container_id (placements (AgentState.frameworks (or_kept state no_state))) none
unfolding poll_mesos_agent get_agent_state get_container_metrics
get-poll_mesos_agent now state containers c container_id =
    get-update (or_kept state no_state) c.container_task_rels container_id
