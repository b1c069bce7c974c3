-- ===== src/Collectors/Agent/Poller/Progress.antt =====
-- A run of `RunPoller` goes on as long as no answer is a 401.
use dcos_metrics.Prelude.{
  ℕ, String, ◌≡◌, refl, ap, ◌∙◌, ◌≢◌, Option, none, some, List, [], ◌∷◌, ◌++◌, arith, All,
}
use dcos_metrics.Collectors.Agent.Poller.{
  poll_containers, poll, fetch_state, Decoders, poll_state, fetch_containers, fetched, Poll,
  run_poller,
}
use dcos_metrics.Service.Client.{Response, fetch}
use dcos_metrics.Collectors.Agent.Messages.{
  Collector, Fetched, get_container_metrics, answered, get_agent_state,
}
use dcos_metrics.Service.{Result, exited, ok}
use dcos_metrics.Collectors.Agent.Datapoints.{Printing}
use dcos_metrics.Collectors.Agent.{AgentState, AgentContainer}
use dcos_metrics.Collectors.Agent.Poller.Laws.{IsCurrent, run_poller-ok, run_poller-last}
use dcos_metrics.Collectors.Agent.Tasks.{update}

-- An answer that does not end the process.
abbrev pub IsAuthorized : Option Response → Type 0
IsAuthorized resp = (r : Response) → resp ≡ some r → r.status_code ≢ 401

fetched-ok :
    {A : Type 0} (r : Result A) → ((n : ℕ) → r ≢ exited n) → (a : Fetched A) × (fetched r ≡ ok a)
unfolding fetched
fetched-ok (ok a) h = (answered a, refl)
fetched-ok (Result.failed e) h = (Fetched.failed, refl)
fetched-ok (exited n) h = absurd (h n refl)

fetch-stays :
    {A : Type 0} (unmarshal : String → Option A) (resp : Option Response)
    → IsAuthorized resp
    → (n : ℕ) → fetch unmarshal resp ≢ exited n
unfolding fetch
fetch-stays unmarshal none h n e = cc
fetch-stays unmarshal (some resp) h n e = ground (arith, e, h resp refl)

fetch_state-ok :
    (json : Decoders) (resp : Option Response)
    → IsAuthorized resp
    → (a : Fetched AgentState) × (fetch_state json resp ≡ ok a)
unfolding fetch_state
fetch_state-ok json resp h = fetched-ok _ (fetch-stays _ resp h)

fetch_containers-ok :
    (json : Decoders) (resp : Option Response) (c : Collector)
    → IsAuthorized resp
    → (a : Fetched (List AgentContainer)) × (fetch_containers json resp c ≡ ok a)
unfolding fetch_containers
fetch_containers-ok json resp c h = fetched-ok _ (fetch-stays _ resp h)

poll_state-ok :
    (json : Decoders) (p : Poll) (c : Collector)
    → IsAuthorized p.state
    → (c' : Collector) × (poll_state json p c ≡ ok c')
unfolding poll_state
poll_state-ok json p c h =
    let (state, e) = fetch_state-ok json p.state h in
    let c₁ = get_agent_state state (record c { timestamp = p.now }) in
    (record c₁ { container_task_rels = update c₁.agent_state c₁.container_task_rels }, rw e refl)

poll_containers-ok :
    (json : Decoders) (p : Poll) (c : Collector)
    → IsAuthorized p.containers
    → (c' : Collector) × (poll_containers json p c ≡ ok c')
unfolding poll_containers
poll_containers-ok json p c h =
    let (containers, e) = fetch_containers-ok json p.containers c h in
    (get_container_metrics containers c, rw e refl)

poll-ok :
    (json : Decoders) (p : Poll) (c : Collector)
    → IsAuthorized p.state
    → IsAuthorized p.containers
    → (c' : Collector) × (poll json p c ≡ ok c')
unfolding poll
poll-ok json p c h k =
    let (c₁, e) = poll_state-ok json p c h in
    let (c₂, f) = poll_containers-ok json p c₁ k in (c₂, rw e f)

module _ (json : Decoders) (print : Printing) where
  run_poller-goes_on :
      (ps : List Poll) (c : Collector)
      → All (λ (p : Poll). IsAuthorized p.state × IsAuthorized p.containers) ps
      → (c' : Collector) × ((run_poller json print ps c).1 ≡ ok c')
  unfolding run_poller
  run_poller-goes_on [] c h = (c, refl)
  run_poller-goes_on (p ∷ ps) c (h, hs) =
      let (c₁, e) = poll-ok json p c h.0 h.1 in
      let (c', f) = run_poller-goes_on ps c₁ hs in
      (c', ap (λ r. r.1) (run_poller-ok json print p ps c c₁ e) ∙ f)

  -- A run of polls none of which is answered with 401 goes on, and after it the agent's state, the tasks of the containers and the time that the collector keeps are those of the last poll alone: of its answer, or of none if the state could not be fetched.
  pub run_poller-IsCurrent :
      (ps : List Poll) (p : Poll) (c : Collector)
      → All (λ (q : Poll). IsAuthorized q.state × IsAuthorized q.containers) (ps ++ p ∷ [])
      → (c' : Collector) × ((run_poller json print (ps ++ p ∷ []) c).1 ≡ ok c')
        × IsCurrent json p c'
  run_poller-IsCurrent ps p c h =
      let (c', e) = run_poller-goes_on (ps ++ p ∷ []) c h in
      (c', e, run_poller-last json print ps p c c' e)
