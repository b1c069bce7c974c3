-- ===== src/Collectors/Node/Count.antt =====
-- How many datapoints a poll of the host has.
use dcos_metrics.Collectors.Node.{uptime, cpu_cores, load, filesystem, memory, network, process}
use dcos_metrics.Prelude.{
  ℕ, ◌+◌, String, ◌≡◌, refl, sym, ap, ◌∙◌, inl, inr, Option, none, some, List, [], ◌∷◌, ◌++◌, arith,
  concat_map, ◌>>=◌, Option-cases, length, ◌*◌, >>=-eq-some, length-append,
}
use dcos_metrics.Producers.{Datapoint, uint64, float64}
use dcos_metrics.Collectors.Node.Gopsutil.{FloatOps, Host, TimesStat, IoCounters, Usage}
use dcos_metrics.Collectors.Node.{Poller, reading, last_after, node_metric_pollers}
use dcos_metrics.Collectors.Node.Pollers.{
  usage_of, filesystem_points, network_points, uptime_datapoints, filesystem_datapoints,
  memory_datapoints, load_datapoints, network_datapoints, process_datapoints,
}
use dcos_metrics.Collectors.Node.Cpu.{point, count_unit, cpu_datapoints, cpu_points, cpu_poll}
use dcos_metrics.Collectors.Node.Laws.{gather}

length_of_bind {ℓ} :
    {A : Type ℓ} (o : Option A) (g : A → List Datapoint) (n : ℕ) {d : List Datapoint}
    → ((a : A) → length (g a) ≡ n)
    → (o >>= λ a. some (g a)) ≡ some d
    → length d ≡ n
length_of_bind none g n k h = absurd (cc)
length_of_bind (some a) g n {d} k h = let same : g a ≡ d = cc in ap length (sym same) ∙ k a

module _ (f : FloatOps) (host : Host) (this_time : Poller → String) where
  length-usage_of :
      (usage : String → Option Usage) (parts : List String) (us : List Usage)
      → usage_of usage parts ≡ some us
      → length us ≡ length parts
  unfolding usage_of
  length-usage_of usage [] us h = ground arith
  length-usage_of usage (p ∷ parts) us h = elim (Option-cases (usage p)) [
    | inl n ↦ absurd (ground (arith, n))
    | inr (u, e) ↦ elim (Option-cases (usage_of usage parts)) [
      | inl n ↦ absurd (ground (arith, e, n))
      | inr (r, g) ↦ ground (arith, e, g, length-usage_of usage parts r g)
    ]
  ]

  length-filesystem :
      (ts : String) (us : List Usage)
      → length (concat_map (filesystem_points ts) us) ≡ 6 * length us
  unfolding concat_map filesystem_points
  length-filesystem ts [] = refl
  length-filesystem ts (u ∷ us) = omega (arith, length-filesystem ts us)

  length-network :
      (ts : String) (nics : List IoCounters)
      → length (concat_map (network_points ts) nics) ≡ 8 * length nics
  unfolding concat_map network_points
  length-network ts [] = refl
  length-network ts (n ∷ nics) = omega (arith, length-network ts nics)

  length-gather_cons :
      (mp : Poller) (mps : List Poller) (last : TimesStat) (dps : List Datapoint)
      → gather f host this_time (mp ∷ mps) last ≡ some dps
      → (d : List Datapoint) × (r : List Datapoint) × (reading f host this_time mp last ≡ some d)
        × (gather f host this_time mps (last_after f host this_time mp last) ≡ some r)
        × (length dps ≡ length d + length r)
  length-gather_cons mp mps last dps h =
      let (d, e, g) =
        >>=-eq-some (reading f host this_time mp last)
          (λ d. gather f host this_time mps (last_after f host this_time mp last) >>= λ rest.
            some (d ++ rest))
          h in
      let (r, e', g') =
        >>=-eq-some (gather f host this_time mps (last_after f host this_time mp last))
          (λ rest. some (d ++ rest)) g in
      let same : d ++ r ≡ dps = cc in (d, r, e, e', ap length (sym same) ∙ length-append d r)

  abbrev size : List String → List IoCounters → Poller → ℕ
  size parts nics uptime = 1
  size parts nics cpu_cores = 6
  size parts nics load = 3
  size parts nics filesystem = 6 * length parts
  size parts nics memory = 7
  size parts nics network = 8 * length nics
  size parts nics process = 1

  length-load : (ts : String) (d : List Datapoint) → load_datapoints host ts ≡ some d → length d ≡ 3
  unfolding load_datapoints
  length-load ts d h =
      length_of_bind host.load_avg
        (λ l.
          point "load.1min" count_unit [] ts (float64 l.0)
          ∷ point "load.5min" count_unit [] ts (float64 l.1)
          ∷ point "load.15min" count_unit [] ts (float64 l.2)
          ∷ [])
        3 (λ l. refl) h

  length-memory :
      (ts : String) (d : List Datapoint) → memory_datapoints host ts ≡ some d → length d ≡ 7
  unfolding memory_datapoints
  length-memory ts d h = elim (Option-cases host.virtual_memory) [
    | inl n ↦ absurd (ground (arith, n))
    | inr (virt, e) ↦ elim (Option-cases host.swap_memory) [
      | inl n ↦ absurd (ground (arith, e, n))
      | inr (swap, g) ↦ ground (arith, e, g)
    ]
  ]

  length-filesystems :
      (ts : String) (parts : List String) (d : List Datapoint)
      → host.partitions ≡ some parts
      → filesystem_datapoints host ts ≡ some d
      → length d ≡ 6 * length parts
  unfolding filesystem_datapoints
  length-filesystems ts parts d p h = elim (Option-cases (usage_of host.usage parts)) [
    | inl n ↦ absurd (ground (arith, p, n))
    | inr (us, e) ↦
        let same : concat_map (filesystem_points ts) us ≡ d = ground (arith, p, e) in
        omega (
          arith,
          ap length (sym same),
          length-filesystem ts us,
          length-usage_of host.usage parts us e,
        )
  ]

  length-reading :
      (parts : List String) (nics : List IoCounters) (mp : Poller) (last : TimesStat)
      (d : List Datapoint)
      → host.partitions ≡ some parts
      → host.io_counters ≡ some nics
      → reading f host this_time mp last ≡ some d
      → length d ≡ size parts nics mp
  unfolding reading
  length-reading parts nics uptime last d p q h =
      unfold uptime_datapoints in
      length_of_bind host.uptime
        (λ u. point "system.uptime" count_unit [] (this_time uptime) (uint64 u) ∷ []) 1 (λ u. refl)
        h
  length-reading parts nics cpu_cores last d p q h =
      unfold cpu_datapoints cpu_points in
      length_of_bind (cpu_poll f host (this_time cpu_cores) last) (cpu_points f) 6 (λ m. refl) h
  length-reading parts nics load last d p q h = length-load (this_time load) d h
  length-reading parts nics filesystem last d p q h =
      length-filesystems (this_time filesystem) parts d p h
  length-reading parts nics memory last d p q h = length-memory (this_time memory) d h
  length-reading parts nics network last d p q h =
      unfold network_datapoints in
      length_of_bind (some nics) (λ n. concat_map (network_points (this_time network)) nics)
        (8 * length nics) (λ n. length-network (this_time network) nics) (rw q at h)
  length-reading parts nics process last d p q h =
      unfold process_datapoints in
      length_of_bind host.procs
        (λ u. point "process.count" count_unit [] (this_time process) (uint64 u) ∷ []) 1 (λ u. refl)
        h

  abbrev sizes : List String → List IoCounters → List Poller → ℕ
  sizes parts nics [] = 0
  sizes parts nics (mp ∷ mps) = size parts nics mp + sizes parts nics mps

  length-gather_all :
      (parts : List String) (nics : List IoCounters) (mps : List Poller) (last : TimesStat)
      (dps : List Datapoint)
      → host.partitions ≡ some parts
      → host.io_counters ≡ some nics
      → gather f host this_time mps last ≡ some dps
      → length dps ≡ sizes parts nics mps
  length-gather_all parts nics [] last dps p q h = ground arith
  length-gather_all parts nics (mp ∷ mps) last dps p q h =
      let (d, r, e, g, len) = length-gather_cons mp mps last dps h in
      omega (
        arith,
        len,
        length-reading parts nics mp last d p q e,
        length-gather_all parts nics mps (last_after f host this_time mp last) r p q g,
      )

  -- A poll of all pollers that succeeds has eighteen datapoints of the host, six of each partition and eight of each network interface.
  pub length-gather :
      (last : TimesStat) (dps : List Datapoint) (parts : List String) (nics : List IoCounters)
      → gather f host this_time node_metric_pollers last ≡ some dps
      → host.partitions ≡ some parts
      → host.io_counters ≡ some nics
      → length dps ≡ 18 + 6 * length parts + 8 * length nics
  length-gather last dps parts nics h p q =
      omega (arith, length-gather_all parts nics node_metric_pollers last dps p q h)
