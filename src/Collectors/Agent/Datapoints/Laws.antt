-- ===== src/Collectors/Agent/Datapoints/Laws.antt =====
-- What the datapoints of a container carry.
use dcos_metrics.Prelude.{
  ℕ, String, ◌≡◌, refl, ◌∙◌, inl, inr, Option, none, some, List, [], ◌∷◌, ◌++◌, arith, lookup,
  latest, All, Option-cases, Dict, All-append, lookup-insert_all,
}
use dcos_metrics.Collectors.Agent.{
  AgentContainer, IoDeviceStats, ResourceStatistics, BlkioStats, IoStatValue,
}
use dcos_metrics.Collectors.Agent.Datapoints.{
  Printing, add_dps, create_container_datapoints, device_datapoints, stat_values_to_datapoints,
  device_stats_to_datapoints, device_tags, blkio_datapoints, container_tags,
}
use dcos_metrics.Producers.{Datapoint}
use mathlib.Core.Path.{subst}

-- A datapoint of a container: the time that `thisTime` gave, and the container's tags.
abbrev pub IsOf : AgentContainer → String → Datapoint → Type 0
IsOf c ts d =
    (d.timestamp ≡ ts)
    × (lookup "container_id" d.tags ≡ some c.container_id)
    × (lookup "framework_id" d.tags ≡ some c.framework_id)
    × (lookup "executor_id" d.tags ≡ some c.executor_id)

add_dps-IsOf :
    (c : AgentContainer) (ts : String) (s : ResourceStatistics)
    → All (IsOf c ts) (add_dps (container_tags c) ts s)
unfolding add_dps lookup
add_dps-IsOf c ts s = ground arith

module _ (print : Printing) (c : AgentContainer) (ts : String) where
  stat_values-IsOf :
      (vals : List IoStatValue) (prefix : String) (tags : Dict String)
      → lookup "container_id" tags ≡ some c.container_id
      → lookup "framework_id" tags ≡ some c.framework_id
      → lookup "executor_id" tags ≡ some c.executor_id
      → All (IsOf c ts) (stat_values_to_datapoints print vals prefix tags ts)
  unfolding stat_values_to_datapoints
  stat_values-IsOf [] prefix tags h i j = tt
  stat_values-IsOf (s ∷ vals) prefix tags h i j =
      ((refl, h, i, j), stat_values-IsOf vals prefix tags h i j)

  -- The base tags are written over the device's, so they all stay.
  device_tag :
      (stat : IoDeviceStats) (k v : String)
      → ((before : Option String) → latest k (container_tags c) before ≡ some v)
      → lookup k (device_tags print stat (container_tags c)) ≡ some v
  unfolding device_tags
  device_tag stat k v h = lookup-insert_all k _ (container_tags c) ∙ h _

  device-IsOf :
      (stat : IoDeviceStats) (prefix : String)
      → All
          (IsOf c ts)
          (device_datapoints print stat prefix (device_tags print stat (container_tags c)) ts)
  unfolding device_datapoints
  device-IsOf stat prefix =
      let h = device_tag stat "container_id" c.container_id (λ b. refl) in
      let i = device_tag stat "framework_id" c.framework_id (λ b. refl) in
      let j = device_tag stat "executor_id" c.executor_id (λ b. refl) in
      let part = λ (vals : List IoStatValue) (p : String).
        stat_values-IsOf vals p (device_tags print stat (container_tags c)) h i j in
      All-append _ _ _ (part stat.serviced _) (
        All-append _ _ _ (part stat.service_bytes _) (
          All-append _ _ _ (part stat.service_time _) (
            All-append _ _ _ (part stat.merged _)
              (All-append _ _ _ (part stat.queued _) (part stat.wait_time _)))))

  devices-IsOf :
      (stats : List IoDeviceStats) (prefix : String)
      → All (IsOf c ts) (device_stats_to_datapoints print stats prefix (container_tags c) ts)
  unfolding device_stats_to_datapoints
  devices-IsOf [] prefix = tt
  devices-IsOf (stat ∷ stats) prefix =
      All-append _ _ _ (device-IsOf stat prefix) (devices-IsOf stats prefix)

  blkio-IsOf :
      (b : Option BlkioStats) → All (IsOf c ts) (blkio_datapoints print b (container_tags c) ts)
  unfolding blkio_datapoints
  blkio-IsOf none = tt
  blkio-IsOf (some b) =
      All-append _ _ _ (devices-IsOf b.cfq _)
        (All-append _ _ _ (devices-IsOf b.cfq_recursive _) (devices-IsOf b.throttling _))

  -- Every datapoint of a container, those of its block devices too, has the time that `thisTime` gave and the
  -- container's, the framework's and the executor's id among its tags.
  pub create_container_datapoints-IsOf :
      (dps : List Datapoint)
      → create_container_datapoints print c ts ≡ some dps
      → All (IsOf c ts) dps
  unfolding create_container_datapoints
  create_container_datapoints-IsOf dps e = elim (Option-cases c.statistics) [
    | inl n ↦ absurd (ground (arith, n))
    | inr (s, f) ↦
        let same : add_dps (container_tags c) ts s
              ++ blkio_datapoints print s.blkio (container_tags c) ts
            ≡ dps =
          ground (arith, f) in
        subst (All (IsOf c ts)) same (All-append _ _ _ (add_dps-IsOf c ts s) (blkio-IsOf s.blkio))
  ]

-- The transmission counters of a container do not reach any datapoint: two statistics that differ in
-- them alone give the same datapoints.
pub transmission_ignored :
    (print : Printing) (c : AgentContainer) (ts : String) (s : ResourceStatistics)
    (packets bytes_sent errors dropped : ℕ)
    → create_container_datapoints print
        (record c {
          statistics = some (record s {
            net_tx_packets = packets;
            net_tx_bytes = bytes_sent;
            net_tx_errors = errors;
            net_tx_dropped = dropped;
          });
        })
        ts
      ≡ create_container_datapoints print (record c { statistics = some s }) ts
unfolding create_container_datapoints add_dps
transmission_ignored print c ts s packets bytes_sent errors dropped = refl
