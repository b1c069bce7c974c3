-- ===== src/Collectors/Node/Laws.antt =====
-- What a poll of the host leaves.
use dcos_metrics.Collectors.Node.{Collector}
use dcos_metrics.Prelude.{
  String, ◌≡◌, refl, sym, ap, ◌∙◌, inl, inr, Bool, true, false, Option, none, some, List, [], ◌∷◌,
  ◌++◌, if◌then◌else◌, ◌>>=◌, Option-cases,
}
use dcos_metrics.Producers.{Datapoint}
use dcos_metrics.Collectors.Node.Gopsutil.{FloatOps, Host, TimesStat}
use dcos_metrics.Collectors.Node.{
  Poller, poll_host, poll_all, get_node_metrics, reading, last_after, node_metric_pollers,
}
use dcos_metrics.Prelude.Int.{ℤ}
use mathlib.Core.List.{append-nil, append_assoc}

abbrev pub or_else : Option (List Datapoint) → List Datapoint → List Datapoint
or_else none old = old
or_else (some l) old = l

module _ (f : FloatOps) (host : Host) (this_time : Poller → String) where
  -- All readings of a list of pollers, in order, or none of them.
  abbrev pub gather : List Poller → TimesStat → Option (List Datapoint)
  gather [] last = some []
  gather (mp ∷ mps) last = reading f host this_time mp last >>= λ dps.
      gather mps (last_after f host this_time mp last) >>= λ rest. some (dps ++ rest)

  abbrev outcome : TimesStat × List Datapoint × Bool → Option (List Datapoint)
  outcome (last, datapoints, failed) = if failed then none else some datapoints

  poll_all-gather :
      (mps : List Poller) (datapoints : List Datapoint) (last : TimesStat)
      → outcome (poll_all f host this_time false mps datapoints last)
        ≡ (gather mps last >>= λ rest. some (datapoints ++ rest))
  unfolding poll_all
  poll_all-gather [] datapoints last = ap some (sym (append-nil datapoints))
  poll_all-gather (mp ∷ mps) datapoints last =
      let last' = last_after f host this_time mp last in
      elim (Option-cases (reading f host this_time mp last)) [
        | inl n ↦ rw (n, poll_all) refl
        | inr (dps, e) ↦
            rw (e, poll_all)
              (poll_all-gather mps (datapoints ++ dps) last'
                ∙ regroup (gather mps last') datapoints dps)
      ]
    where
      regroup :
          (o : Option (List Datapoint)) (a b : List Datapoint)
          → (o >>= λ rest. some ((a ++ b) ++ rest))
            ≡ ((o >>= λ rest. some (b ++ rest)) >>= λ rest. some (a ++ rest))
      regroup none a b = refl
      regroup (some o) a b = ap some (append_assoc a b o)

  replaced :
      (r : TimesStat × List Datapoint × Bool) (o : Option (List Datapoint)) (old : List Datapoint)
      → outcome r ≡ (o >>= λ rest. some ([] ++ rest))
      → (if r.2 then old else r.1) ≡ or_else o old
  replaced (last, nm, true) none old e = refl
  replaced (last, nm, true) (some l) old e = absurd (cc)
  replaced (last, nm, false) none old e = absurd (cc)
  replaced (last, nm, false) (some l) old e = cc

  -- Off Windows a poll of the host replaces all datapoints by those of all seven pollers, in order, or, when one of them fails, keeps all the datapoints of the poll before. In both cases its timestamp is the time of this poll.
  pub poll_host-gather :
      (now : ℤ) (c : Collector)
      → (Collector.node_metrics (poll_host f host this_time false now c)
          ≡ or_else (gather node_metric_pollers c.last_cpu) c.node_metrics)
        × (Collector.timestamp (poll_host f host this_time false now c) ≡ now)
  unfolding poll_host get_node_metrics
  poll_host-gather now c = (
    replaced (poll_all f host this_time false node_metric_pollers [] c.last_cpu)
        (gather node_metric_pollers c.last_cpu) c.node_metrics
        (poll_all-gather node_metric_pollers [] c.last_cpu),
    refl,
  )

  -- On Windows a poller that fails is left out.
  poll_all_windows :
      (mps : List Poller) (datapoints : List Datapoint) (last : TimesStat)
      → (poll_all f host this_time true mps datapoints last).2 ≡ false
  unfolding poll_all
  poll_all_windows [] datapoints last = refl
  poll_all_windows (mp ∷ mps) datapoints last =
      elim (Option-cases (reading f host this_time mp last)) [
        | inl n ↦ rw (n, poll_all) (poll_all_windows mps datapoints _)
        | inr (dps, e) ↦ rw (e, poll_all) (poll_all_windows mps (datapoints ++ dps) _)
      ]
