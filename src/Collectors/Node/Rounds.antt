-- ===== src/Collectors/Node/Rounds.antt =====
-- collectors/node/node.go: `New`, and the endless loop of `RunPoller` as its rounds.
use dcos_metrics.Collectors.Node.{Collector, Poller, poll_host, transform, node_metric_pollers}
use dcos_metrics.Prelude.{
  List, [], ◌∷◌, ◌++◌, Elem, String, ◌≡◌, refl, sym, ap, ◌∙◌, ◌⊎◌, inl, inr, Bool, false, some,
  Option-cases,
}
use dcos_metrics.Prelude.Int.{ℤ, pos}
use dcos_metrics.Collectors.{NodeInfo}
use dcos_metrics.Collectors.Node.Gopsutil.{FloatOps, Host, TimesStat}
use dcos_metrics.Producers.{Datapoint, MetricsMessage}
use dcos_metrics.Collectors.Node.Laws.{gather, poll_host-gather, or_else}
use mathlib.Core.Path.{subst}

-- What one round meets: the clock, what gopsutil answers, and the time at which each poller ran.
pub record HostRound : Type 0 where
  pub now : ℤ
  pub host : Host
  pub this_time : Poller → String

-- `New`. The times of the CPU are a global variable, which it leaves alone.
unfoldable pub new_node_collector : NodeInfo → TimesStat → Collector
new_node_collector node_info last = record {
  node_info = node_info;
  node_metrics = [];
  timestamp = pos 0;
  last_cpu = last;
}

module _ (f : FloatOps) (windows : Bool) where
  unfoldable pub poll_round : HostRound → Collector → Collector
  poll_round r c = poll_host f r.host r.this_time windows r.now c

  -- The loop of `RunPoller`: what it has sent, and its collector.
  unfoldable pub run_node_poller : List HostRound → Collector → List MetricsMessage × Collector
  run_node_poller [] c = ([], c)
  run_node_poller (r ∷ rs) c =
      let c' = poll_round r c in
      let (sent, last) = run_node_poller rs c' in (transform c' ++ sent, last)

module _ (f : FloatOps) where
  -- All the readings of the seven pollers in one round, after some times of the CPU.
  pub IsReadingOf : List Datapoint → HostRound → Type 0
  IsReadingOf dps r =
      (last : TimesStat) × (gather f r.host r.this_time node_metric_pollers last ≡ some dps)

  poll_round-cases :
      (r : HostRound) (c : Collector)
      → (Collector.node_metrics (poll_round f false r c) ≡ c.node_metrics)
        ⊎ IsReadingOf (Collector.node_metrics (poll_round f false r c)) r
  unfolding poll_round IsReadingOf
  poll_round-cases r c =
      let (e, _) = poll_host-gather f r.host r.this_time r.now c in
      elim (Option-cases (gather f r.host r.this_time node_metric_pollers c.last_cpu)) [
        | inl n ↦ inl (e ∙ ap (λ o. or_else o c.node_metrics) n)
        | inr (dps, g) ↦
            inr (c.last_cpu, g ∙ ap some (sym (e ∙ ap (λ o. or_else o c.node_metrics) g)))
      ]

  -- The datapoints that the collector began with, or all those of one of the rounds.
  pub Shows : List HostRound → Collector → MetricsMessage → Type 0
  Shows rs c m =
      (m.datapoints ≡ c.node_metrics) ⊎ ((q : HostRound) × Elem q rs × IsReadingOf m.datapoints q)

  -- What a message shows that was sent after a round, by what it shows from there on.
  later :
      (r : HostRound) (rs : List HostRound) (c : Collector) (m : MetricsMessage)
      → Shows rs (poll_round f false r c) m
      → Shows (r ∷ rs) c m
  unfolding Shows
  later r rs c m (inr (q, i, reads)) = inr (q, inr i, reads)
  later r rs c m (inl same) = elim (poll_round-cases r c) [
    | inl old ↦ inl (same ∙ old)
    | inr reads ↦ inr (r, inl refl, subst (λ l. IsReadingOf l r) (sym same) reads)
  ]

  -- Off Windows each message of a run has the time of one of its rounds, and either the datapoints that the collector began with or all those of a single round, this one or one before it: never some of one round and some of another.
  pub run_node_poller-IsReadingOf :
      (rs : List HostRound) (c : Collector) (m : MetricsMessage)
      → Elem m (run_node_poller f false rs c).0
      → (before : List HostRound) × (r : HostRound) × (after : List HostRound) × (rs
          ≡ before ++ r ∷ after)
        × (m.timestamp ≡ r.now)
        × Shows (before ++ r ∷ []) c m
  unfolding run_node_poller transform Shows poll_round poll_host
  run_node_poller-IsReadingOf [] c m h = absurd h
  run_node_poller-IsReadingOf (r ∷ rs) c m (inl e) = (
    [],
    r,
    rs,
    refl,
    ap (λ (x : MetricsMessage). x.timestamp) e ∙ (poll_host-gather f r.host r.this_time r.now c).1,
    later r [] c m (inl (ap (λ (x : MetricsMessage). x.datapoints) e)),
  )
  run_node_poller-IsReadingOf (r ∷ rs) c m (inr h) =
      let (before, p, after, split, time, shown) =
        run_node_poller-IsReadingOf rs (poll_round f false r c) m h in
      (r ∷ before, p, after, ap (λ l. r ∷ l) split, time, later r (before ++ p ∷ []) c m shown)
