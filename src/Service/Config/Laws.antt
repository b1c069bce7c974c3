-- ===== src/Service/Config/Laws.antt =====
-- What a configuration that `getNewConfig` of config.go returns promises.
use dcos_metrics.Prelude.{
  ℕ, ◌<◌, String, ◌≡◌, ◌⊎◌, inl, inr, Bool, some, arith, eq_iff, Option-cases, ◌^◌, ◌*◌, refl, sym,
  ap, ◌∙◌, true, false, ◌&&◌, not, List, ◌==◌, Bool-cases, none,
}
use dcos_metrics.Service.Config.{
  Config, Environment, no_node_info, raise_expiry, node_info_over, check_role, with_ids, with_ip,
  NodeUtil, AgentConfig, informed_by, get_node_info_from_url, state_url, get_new_config,
  get_node_info, with_client, set_client, no_mesos_id, get_settings, new_config, ProducerConfig,
  read_settings,
}
use dcos_metrics.Service.{Result, ok, >>>-eq-ok, ◌>>>◌}
use dcos_metrics.Prelude.Int.{◌*ℤ◌, pos, ◌≤ℤ◌}
use dcos_metrics.Service.Client.{Client, new_metrics_client}
use mathlib.Core.Path.{subst}

-- All settings but those of the node.
abbrev rest : Config → Config
rest c = record c { node_info = no_node_info }

-- What `getNodeInfo` adds, and that it touches nothing else.
abbrev IsInformed : Config → Config → Type 0
IsInformed c c' =
    (rest c' ≡ rest c)
    × (c'.node_info.hostname ≡ c'.node_info.ip_address)
    × (c'.node_info.leader ≡ "leader.mesos:5050")

module _ (env : Environment) where
  with_ids-IsInformed :
      (mid ip : String) (node : NodeUtil) (c c' : Config)
      → with_ids env mid node (with_ip env ip c) ≡ ok c'
      → IsInformed c c'
  unfolding with_ids with_ip
  with_ids-IsInformed mid ip node c c' h = elim (Option-cases node.cluster_id) [
    | inl n ↦ absurd (ground (arith, n))
    | inr (cid, e) ↦ ground (arith, e)
  ]

  informed_by-IsInformed :
      (retry : Config → Result Config) (c c' : Config) (node : NodeUtil)
      → ((ip : String) → retry (with_ip env ip c) ≡ ok c' → IsInformed c c')
      → informed_by env retry c node ≡ ok c'
      → IsInformed c c'
  unfolding informed_by
  informed_by-IsInformed retry c c' node again h = elim (Option-cases node.detect_ip) [
    | inl n ↦ absurd (ground (arith, n))
    | inr (ip, e) ↦ elim (Option-cases node.mesos_id) [
      | inl n ↦ again ip (ground (arith, e, n))
      | inr (mid, f) ↦ with_ids-IsInformed mid ip node c c' (ground (arith, e, f))
    ]
  ]

  node_info_over-IsInformed :
      (use_ssl : Bool) (retry : Config → Result Config) (c c' : Config)
      → ((ip : String) → retry (with_ip env ip c) ≡ ok c' → IsInformed c c')
      → node_info_over env use_ssl retry c ≡ ok c'
      → IsInformed c c'
  unfolding node_info_over
  node_info_over-IsInformed use_ssl retry c c' again h =
      let (node, e, g) =
        >>>-eq-ok (get_node_info_from_url env (state_url use_ssl) c) (informed_by env retry c) h in
      informed_by-IsInformed retry c c' node again g

  -- The role of a configuration that is returned.
  check_role-eq :
      (c c' : Config)
      → check_role env c ≡ ok c'
      → (c ≡ c') × ((c.dcos_role ≡ "master") ⊎ (c.dcos_role ≡ "agent"))
  unfolding check_role
  check_role-eq c c' h = ground (arith, eq_iff c.dcos_role "master", eq_iff c.dcos_role "agent")

  raise_expiry-eq :
      (c c' : Config)
      → raise_expiry env c ≡ ok c'
      → (a : AgentConfig) × (c.mesos_agent ≡ some a)
        × (c'.mesos_agent ≡ some a)
        × (c'.dcos_role ≡ c.dcos_role)
        × ((n : ℕ) → a.poll_period ≡ pos n → n < 2 ^ 62 → pos (2 * n) ≤ℤ c'.http.cache_expiry)
  unfolding raise_expiry ◌*ℤ◌
  raise_expiry-eq c c' h = elim (Option-cases c.mesos_agent) [
    | inl n ↦ absurd (ground (arith, n))
    | inr (a, e) ↦ (a, e, ground (arith, e), ground (arith, e), λ n p q. ground (arith, e, p))
  ]

  get_node_info-IsInformed :
      (attempt_ssl : Bool) (c c' : Config)
      → get_node_info env attempt_ssl c ≡ ok c'
      → IsInformed c c'
  unfolding get_node_info
  get_node_info-IsInformed attempt_ssl c c' h =
      elim (Bool-cases (attempt_ssl && not (c.iam_config_path == ""))) [
        | inl ssl ↦
            node_info_over-IsInformed true (node_info_over env false (no_mesos_id env)) c c'
              (λ ip e. retried ip e) (ground (arith, ssl))
        | inr plain ↦
            node_info_over-IsInformed false (no_mesos_id env) c c' (λ ip e. absurd (cc))
              (ground (arith, plain))
      ]
    where
      retried :
          (ip : String)
          → node_info_over env false (no_mesos_id env) (with_ip env ip c) ≡ ok c'
          → IsInformed c c'
      retried ip e =
          let again =
            node_info_over-IsInformed false (no_mesos_id env) (with_ip env ip c) c'
              (λ i x. absurd (cc)) e in
          (again.0 ∙ (unfold with_ip in refl), again.1, again.2)

  with_client-eq :
      (c c' : Config) (a : AgentConfig)
      → c.mesos_agent ≡ some a
      → with_client env c ≡ ok c'
      → (client : Client) × (new_metrics_client env.certificates c.ca_certificate_path
            c.iam_config_path
          ≡ ok client)
        × (c' ≡ record c { mesos_agent = some (record a { http_client = some client }) })
  unfolding with_client set_client
  with_client-eq c c' a e h =
      let (client, made, g) =
        >>>-eq-ok (new_metrics_client env.certificates c.ca_certificate_path c.iam_config_path)
          (λ client. ok (set_client env client c)) h in
      (client, made, ground (arith, e, g))

  -- What the settings promise before the node is asked.
  abbrev IsSettled : Config → Type 0
  IsSettled c =
      (a : AgentConfig) × (c.mesos_agent ≡ some a)
      × ((c.dcos_role ≡ "master") ⊎ (c.dcos_role ≡ "agent"))
      × ((n : ℕ) → a.poll_period ≡ pos n → n < 2 ^ 62 → pos (2 * n) ≤ℤ c.http.cache_expiry)

  get_settings-IsSettled :
      (args : List String) (c : Config) → get_settings env args ≡ ok c → IsSettled c
  unfolding get_settings
  get_settings-IsSettled args c h =
      let read = env.parse_flags args new_config >>> read_settings env in
      let (checked, e, g) = >>>-eq-ok (read >>> check_role env) (raise_expiry env) h in
      let (settled, e', g') = >>>-eq-ok read (check_role env) e in
      let (same, role) = check_role-eq settled checked g' in
      let (a, has, has', kept, least) = raise_expiry-eq checked c g in
      (
        a,
        has',
        subst (λ r. (r ≡ "master") ⊎ (r ≡ "agent"))
            (ap (λ (x : Config). x.dcos_role) same ∙ sym kept) role,
        least,
      )

  IsSettled-rest : (c c' : Config) → rest c' ≡ rest c → IsSettled c → IsSettled c'
  IsSettled-rest c c' e (a, has, role, least) = (
    a,
    ap (λ (x : Config). x.mesos_agent) e ∙ has,
    subst (λ r. (r ≡ "master") ⊎ (r ≡ "agent")) (ap (λ (x : Config). x.dcos_role) (sym e)) role,
    λ n p q.
        subst (λ (x : ProducerConfig). pos (2 * n) ≤ℤ x.cache_expiry)
          (ap (λ (x : Config). x.http) (sym e)) (least n p q),
  )

  -- The last step, of a configuration that is settled and informed.
  get_new_config-last :
      (args : List String) (c : Config)
      → get_new_config env args ≡ ok c
      → (settings informed : Config) × IsInformed settings informed
        × IsSettled informed
        × (with_client env informed ≡ ok c)
  unfolding get_new_config
  get_new_config-last args c h =
      let (informed, e, g) =
        >>>-eq-ok (get_settings env args >>> get_node_info env true) (with_client env) h in
      let (settings, e', g') = >>>-eq-ok (get_settings env args) (get_node_info env true) e in
      let i = get_node_info-IsInformed true settings informed g' in
      (
        settings,
        informed,
        i,
        IsSettled-rest settings informed i.0 (get_settings-IsSettled args settings e'),
        g,
      )

  -- A configuration that is returned: the role is one of the two, the collectors have a client that was made of the settings, and what the node said of itself is in it.
  pub record IsReady (c : Config) : Type 0 where
    pub role : (c.dcos_role ≡ "master") ⊎ (c.dcos_role ≡ "agent")
    pub agent : AgentConfig
    pub has_agent : c.mesos_agent ≡ some agent
    pub client : Client
    pub has_client : agent.http_client ≡ some client
    pub made :
        new_metrics_client env.certificates c.ca_certificate_path c.iam_config_path ≡ ok client
    pub hostname : c.node_info.hostname ≡ c.node_info.ip_address
    pub leader : c.node_info.leader ≡ "leader.mesos:5050"

  -- A configuration that `getNewConfig` returns without an error has the role master or agent, a client for the agent's collector that is made of its certificate settings, the node's address as its hostname and the leader's address.
  pub get_new_config-IsReady :
      (args : List String) (c : Config) → get_new_config env args ≡ ok c → IsReady c
  get_new_config-IsReady args c h =
      let (settings, informed, i, (a, has, role, least), last) = get_new_config-last args c h in
      let (client, made, same) = with_client-eq informed c a has last in
      rw same (record {
        role = role;
        agent = record a { http_client = some client };
        has_agent = refl;
        client = client;
        has_client = refl;
        made = made;
        hostname = i.1;
        leader = i.2;
      })

  -- Of such a configuration whose poll period is not negative and below 2^62 nanoseconds, the HTTP producer's cache expiry is two poll periods or more, whatever the file says.
  pub get_new_config-expiry :
      (args : List String) (c : Config) (a : AgentConfig) (n : ℕ)
      → get_new_config env args ≡ ok c
      → c.mesos_agent ≡ some a
      → a.poll_period ≡ pos n
      → n < 2 ^ 62
      → pos (2 * n) ≤ℤ c.http.cache_expiry
  get_new_config-expiry args c a n h e p q =
      let (settings, informed, i, (a', has, role, least), last) = get_new_config-last args c h in
      let (client, made, same) = with_client-eq informed c a' has last in
      let set : some (record a' { http_client = some client }) ≡ some a =
        sym (ap (λ (x : Config). x.mesos_agent) same) ∙ e in
      let period : a'.poll_period ≡ a.poll_period = cc in rw same (least n (period ∙ p) q)

  -- With an IAM configuration the node is asked over SSL first. Where it gives its address but no Mesos id, the outcome is that of asking without SSL, which is tried once and no more.
  pub get_node_info-fallback :
      (c : Config) (node : NodeUtil) (ip : String)
      → (c.iam_config_path == "") ≡ false
      → get_node_info_from_url env (state_url true) c ≡ ok node
      → node.detect_ip ≡ some ip
      → node.mesos_id ≡ none
      → get_node_info env true c ≡ get_node_info env false (with_ip env ip c)
  unfolding get_node_info node_info_over informed_by
  get_node_info-fallback c node ip iam e f g = rw iam (rw e (rw f (rw g refl)))
