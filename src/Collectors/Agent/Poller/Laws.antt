-- ===== src/Collectors/Agent/Poller/Laws.antt =====
-- What a run of `RunPoller` promises.
use dcos_metrics.Prelude.{
  ◌≡◌, refl, sym, ap, ◌∙◌, ◌≢◌, inl, inr, List, [], ◌∷◌, ◌++◌, Elem, Elem-append_cases, ℕ,
}
use dcos_metrics.Collectors.Agent.Poller.{
  poll_containers, poll_state, poll, Decoders, Poll, fetch_state, fetch_containers, run_poller,
}
use dcos_metrics.Collectors.Agent.Messages.{
  Collector, Fetched, or_kept, no_state, get_container_metrics, get_agent_state, metrics_messages,
}
use dcos_metrics.Service.{ok, >>>-eq-ok, ok-transport, Result-cases, Result-ok?}
use dcos_metrics.Collectors.Agent.{AgentState, AgentContainer}
use dcos_metrics.Collectors.Agent.Tasks.{update}
use dcos_metrics.Collectors.Agent.Datapoints.{Printing}
use dcos_metrics.Producers.{MetricsMessage}
use mathlib.Core.Path.{subst}
use dcos_metrics.Collectors.Agent.Messages.Descriptions.{Describes}
use dcos_metrics.Collectors.Agent.Messages.Laws.{metrics_messages_sound}

-- What the first part of a poll leaves is of its own answer alone, whatever the collector held.
pub IsCurrent : Decoders → Poll → Collector → Type 0
IsCurrent json p c =
    (state : Fetched AgentState) × (fetch_state json p.state ≡ ok state)
    × (c.agent_state ≡ or_kept state no_state)
    × (c.container_task_rels ≡ update c.agent_state [])
    × (c.timestamp ≡ p.now)

pub poll_state-IsCurrent :
    (json : Decoders) (p : Poll) (c c' : Collector)
    → poll_state json p c ≡ ok c'
    → IsCurrent json p c'
unfolding poll_state IsCurrent or_kept get_agent_state update
poll_state-IsCurrent json p c c' h =
    let (state, e, f) = >>>-eq-ok (fetch_state json p.state) _ h in
    ok-transport (IsCurrent json p) f (state, e, refl, refl, refl)

poll_containers-IsCurrent :
    (json : Decoders) (p : Poll) (c c' : Collector)
    → IsCurrent json p c
    → poll_containers json p c ≡ ok c'
    → IsCurrent json p c'
unfolding poll_containers IsCurrent get_container_metrics
poll_containers-IsCurrent json p c c' i h =
    let (containers, e, f) = >>>-eq-ok (fetch_containers json p.containers c) _ h in
    ok-transport (IsCurrent json p) f i

-- The second part leaves the tasks alone.
pub poll_containers-rels :
    (json : Decoders) (p : Poll) (c c' : Collector)
    → poll_containers json p c ≡ ok c'
    → c'.container_task_rels ≡ c.container_task_rels
unfolding poll_containers get_container_metrics
poll_containers-rels json p c c' h =
    let (containers, e, f) = >>>-eq-ok (fetch_containers json p.containers c) _ h in
    ok-transport (λ (x : Collector). x.container_task_rels ≡ c.container_task_rels) f refl

-- A poll by its two parts.
pub poll-parts :
    (json : Decoders) (p : Poll) (c c₁ c₂ : Collector)
    → poll_state json p c ≡ ok c₁
    → poll_containers json p c₁ ≡ ok c₂
    → poll json p c ≡ ok c₂
unfolding poll
poll-parts json p c c₁ c₂ e f = rw e f

pub poll-IsCurrent :
    (json : Decoders) (p : Poll) (c c' : Collector) → poll json p c ≡ ok c' → IsCurrent json p c'
unfolding poll
poll-IsCurrent json p c c' h =
    let (c₁, e, f) = >>>-eq-ok (poll_state json p c) (poll_containers json p) h in
    poll_containers-IsCurrent json p c₁ c' (poll_state-IsCurrent json p c c₁ e) f

module _ (json : Decoders) (print : Printing) where
  -- A message that a run of polls has sent, and when: after some of the polls, as one of that poll's.
  pub IsSent : List Poll → Collector → MetricsMessage → Type 0
  IsSent ps c m =
      (before : List Poll) × (p : Poll) × (after : List Poll) × (c₀ : Collector) × (c₁ : Collector)
      × (ps ≡ before ++ p ∷ after)
      × ((run_poller json print before c).1 ≡ ok c₀)
      × (poll json p c₀ ≡ ok c₁)
      × Elem m (metrics_messages print p.this_time c₁)

  pub run_poller-ok :
      (p : Poll) (ps : List Poll) (c c' : Collector)
      → poll json p c ≡ ok c'
      → run_poller json print (p ∷ ps) c ≡ (
        metrics_messages print p.this_time c' ++ (run_poller json print ps c').0,
        (run_poller json print ps c').1,
      )
  unfolding run_poller
  run_poller-ok p ps c c' e = rw (e, run_poller) refl

  IsSent-later :
      (p : Poll) (ps : List Poll) (c c' : Collector) (m : MetricsMessage)
      → poll json p c ≡ ok c'
      → IsSent ps c' m
      → IsSent (p ∷ ps) c m
  unfolding IsSent
  IsSent-later p ps c c' m e (before, q, after, c₀, c₁, split, ran, polled, i) = (
    p ∷ before,
    q,
    after,
    c₀,
    c₁,
    ap (λ l. p ∷ l) split,
    ap (λ r. r.1) (run_poller-ok p before c c' e) ∙ ran,
    polled,
    i,
  )

  run_poller-ended :
      (p : Poll) (ps : List Poll) (c : Collector)
      → ((c' : Collector) → poll json p c ≢ ok c')
      → ((run_poller json print (p ∷ ps) c).0 ≡ [])
        × ((c' : Collector) → (run_poller json print (p ∷ ps) c).1 ≢ ok c')
  unfolding run_poller
  run_poller-ended p ps c h = elim (Result-cases (poll json p c)) [
    | inl (c', e) ↦ absurd (h c' e)
    | inr (inl (e, f)) ↦ rw (f, run_poller) (refl, λ c' g. cc)
    | inr (inr (n, f)) ↦ rw (f, run_poller) (refl, λ c' g. cc)
  ]

  run_poller-IsSent :
      (ps : List Poll) (c : Collector) (m : MetricsMessage)
      → Elem m (run_poller json print ps c).0
      → IsSent ps c m
  unfolding run_poller IsSent
  run_poller-IsSent [] c m h = absurd h
  run_poller-IsSent (p ∷ ps) c m h = elim (Result-ok? (poll json p c)) [
    | inr ended ↦ absurd (subst (Elem m) (run_poller-ended p ps c ended).0 h)
    | inl (c', e) ↦
        let h' : Elem m (metrics_messages print p.this_time c' ++ (run_poller json print ps c').0) =
          subst (λ r. Elem m r.0) (run_poller-ok p ps c c' e) h in
        elim (Elem-append_cases m (metrics_messages print p.this_time c')
          (run_poller json print ps c').0 h') [
            | inl i ↦ ([], p, ps, c, c', refl, refl, e, i)
            | inr i ↦ IsSent-later p ps c c' m e (run_poller-IsSent ps c' m i)
          ]
  ]

  -- The collector that a run has left is that of its last poll.
  pub run_poller-last :
      (ps : List Poll) (p : Poll) (c c' : Collector)
      → (run_poller json print (ps ++ p ∷ []) c).1 ≡ ok c'
      → IsCurrent json p c'
  unfolding run_poller
  run_poller-last [] p c c' h = elim (Result-ok? (poll json p c)) [
    | inr ended ↦ absurd ((run_poller-ended p [] c ended).1 c' h)
    | inl (c₁, e) ↦
        poll-IsCurrent json p c c' (e ∙ sym (ap (λ r. r.1) (run_poller-ok p [] c c₁ e)) ∙ h)
  ]
  run_poller-last (q ∷ ps) p c c' h = elim (Result-ok? (poll json q c)) [
    | inr ended ↦ absurd ((run_poller-ended q (ps ++ p ∷ []) c ended).1 c' h)
    | inl (c₁, e) ↦
        run_poller-last ps p c₁ c' (sym (ap (λ r. r.1) (run_poller-ok q (ps ++ p ∷ []) c c₁ e)) ∙ h)
  ]

  -- Each message of a run of polls is of one of its polls, which began with the collector that the polls before it had left: it describes a container that this poll has left, with the datapoints as at one of the times that the poll has asked for, under an agent's state that is made of that poll's answer alone, and has the time of that poll.
  pub run_poller-Describes :
      (ps : List Poll) (c : Collector) (m : MetricsMessage)
      → Elem m (run_poller json print ps c).0
      → (before : List Poll) × (p : Poll) × (after : List Poll) × (c₀ : Collector)
        × (c₁ : Collector) × (cm : AgentContainer) × (n : ℕ) × (ps ≡ before ++ p ∷ after)
        × ((run_poller json print before c).1 ≡ ok c₀)
        × (poll json p c₀ ≡ ok c₁)
        × IsCurrent json p c₁
        × Elem cm c₁.container_metrics
        × Describes print (p.this_time n) c₁ cm m
        × (m.timestamp ≡ p.now)
  run_poller-Describes ps c m h =
      unfold IsCurrent IsSent in
      let (before, p, after, c₀, c₁, split, ran, polled, i) = run_poller-IsSent ps c m h in
      let now = poll-IsCurrent json p c₀ c₁ polled in
      let (cm, n, j, d) = metrics_messages_sound print c₁ p.this_time m i in
      let (state, e, f, g, t) = now in
      (before, p, after, c₀, c₁, cm, n, split, ran, polled, now, j, d, d.time ∙ t)
