-- ===== src/Plugins/Librato/Post.antt =====
-- plugins/librato/post_request.go and librato.go: what is posted, and when a post succeeds.
use mathlib.Core.Path.{subst}
use dcos_metrics.Plugins.Librato.{
  add, LibratoSummary, send, is_finite, auth_header, check_response, check_summary,
  new_post_request, librato_connector, is_blank,
}
use dcos_metrics.Prelude.{
  ℕ, zero, suc, String, ◌≡◌, refl, sym, ap, ◌∙◌, inl, inr, Bool, true, false, Option, none, some,
  List, arith, if◌then◌else◌, Bool-cases, All, Option-cases, all, eqb, ◌||◌,
}
use dcos_metrics.Plugins.Librato.{Measurement, PostRequestOpts}
use dcos_metrics.Plugins.Convert.{Conversions}
use dcos_metrics.Producers.{MetricsMessage}
use dcos_metrics.Prelude.Int.{ℤ, pos, ltb_ℤ, negsuc}
use dcos_metrics.Service.Client.{Response}
use dcos_metrics.Plugins.Librato.Laws.{IsPostable, add-IsPostable}

accepted :
    (opts request : PostRequestOpts) (blank : Bool) (interval : ℤ)
    → (if blank then none else if ltb_ℤ (pos 0) interval then some opts else none) ≡ some request
    → (opts ≡ request) × (k : ℕ) × (interval ≡ pos (suc k))
accepted opts request true interval h = absurd (ground arith)
accepted opts request false (pos zero) h = absurd (ground arith)
accepted opts request false (pos (suc k)) h = (ground (arith, h), k, refl)
accepted opts request false (negsuc k) h = absurd (ground arith)

-- A request that is made is that of the options, with an interval that is positive.
new_post_request-some :
    (opts request : PostRequestOpts)
    → new_post_request opts ≡ some request
    → (opts ≡ request) × (k : ℕ) × (opts.polling_interval ≡ pos (suc k))
unfolding new_post_request
new_post_request-some opts request h =
    accepted opts request
      (is_blank opts.librato_url || is_blank opts.librato_email || is_blank opts.librato_token)
      opts.polling_interval h

same_list : {a b : List Measurement} → some a ≡ some b → a ≡ b
same_list h = ground (arith, h)

module _ (base64 : String → String) (unmarshal : String → Option LibratoSummary)
    (post : String → List Measurement → Option Response) where
  Agrees : Response → Type 0
  Agrees resp =
      (resp.status_code ≡ 202)
      × (body : String) × (resp.body ≡ some body)
      × (s : LibratoSummary) × (unmarshal body ≡ some s)
      × (s.failed ≡ pos 0)

  nothing_failed :
      (total accepted : ℤ) (i : ℤ) (code : ℕ) (body : String)
      → check_summary code body (record { total = total; accepted = accepted; failed = i }) ≡ none
      → i ≡ pos 0
  unfolding check_summary
  nothing_failed total accepted (pos zero) code body h = refl
  nothing_failed total accepted (pos (suc n)) code body h = cc
  nothing_failed total accepted (negsuc n) code body h = cc

  check_response-none : (resp : Response) → check_response unmarshal resp ≡ none → Agrees resp
  unfolding check_response Agrees
  check_response-none resp h = elim (Option-cases resp.body) [
    | inl n ↦ absurd (ground (arith, n))
    | inr (body, e) ↦ elim (Bool-cases (eqb resp.status_code 202)) [
      | inr other ↦ absurd (ground (arith, e, other))
      | inl same ↦ elim (Option-cases (unmarshal body)) [
        | inl n ↦ absurd (ground (arith, e, same, n))
        | inr (s, f) ↦ (
          ground (arith, same),
          body,
          e,
          s,
          f,
          nothing_failed s.total s.accepted s.failed resp.status_code body (rw (e, same, f) at h),
        )
      ]
    ]
  ]

  -- If `send` ends without an error, it posted all the measurements, all of them finite, in one request with the credentials, and the answer had the status 202 and a summary that says that nothing failed.
  pub send-none :
      (opts : PostRequestOpts) (ms : List Measurement) (sent : Option (List Measurement))
      → send base64 unmarshal post opts ms ≡ (sent, none)
      → (sent ≡ some ms)
        × (all is_finite ms ≡ true)
        × (header : String) × (auth_header base64 opts ≡ some header)
        × (resp : Response) × (post header ms ≡ some resp)
        × (resp.status_code ≡ 202)
        × (body : String) × (resp.body ≡ some body)
        × (s : LibratoSummary) × (unmarshal body ≡ some s)
        × (s.failed ≡ pos 0)
  unfolding send Agrees
  send-none opts ms sent h = elim (Bool-cases (all is_finite ms)) [
    | inr bad ↦ absurd (ground (arith, bad))
    | inl fine ↦ elim (Option-cases (auth_header base64 opts)) [
      | inl n ↦ absurd (ground (arith, fine, n))
      | inr (header, e) ↦ elim (Option-cases (post header ms)) [
        | inl n ↦ absurd (ground (arith, fine, e, n))
        | inr (resp, f) ↦
            let k : (some ms, check_response unmarshal resp) ≡ (sent, none) =
              (rw (fine, e, f) at h) in
            let (status, body, b, s, u, z) = check_response-none resp (ap (λ t. t.1) k) in
            (sym (ap (λ t. t.0) k), fine, header, e, resp, f, status, body, b, s, u, z)
      ]
    ]
  ]

  send-posted :
      (opts : PostRequestOpts) (ms posted : List Measurement)
      → (send base64 unmarshal post opts ms).0 ≡ some posted
      → (ms ≡ posted) × (all is_finite ms ≡ true)
  unfolding send
  send-posted opts ms posted h = elim (Bool-cases (all is_finite ms)) [
    | inr bad ↦ absurd (ground (arith, bad))
    | inl fine ↦ elim (Option-cases (auth_header base64 opts)) [
      | inl n ↦ absurd (ground (arith, fine, n))
      | inr (header, e) ↦ elim (Option-cases (post header ms)) [
        | inl n ↦ (same_list (rw (fine, e, n) at h), fine)
        | inr (resp, f) ↦ (same_list (rw (fine, e, f) at h), fine)
      ]
    ]
  ]

  -- Whatever options the plugin is given and whatever the messages are: the measurements that it posts are all finite, and each passes `validate` (it has a name, a tag and a positive time), has only tags whose names and values are legal, and has a time that is a multiple of the polling interval.
  pub librato_connector-IsPostable :
      (c : Conversions) (now : ℕ → ℤ) (opts : PostRequestOpts) (ms : List MetricsMessage)
      (posted : List Measurement)
      → librato_connector base64 unmarshal post c now opts ms ≡ some posted
      → (all is_finite posted ≡ true) × All (IsPostable opts.polling_interval) posted
  unfolding librato_connector
  librato_connector-IsPostable c now opts ms posted h =
      elim (Option-cases (new_post_request opts)) [
        | inl n ↦ absurd (ground (arith, n))
        | inr (request, e) ↦
            let (same, k, positive) = new_post_request-some opts request e in
            let made = add c request now 0 ms in
            let (all_posted, fine) =
              send-posted request made posted (rw (e, librato_connector) at h) in
            (
              subst (λ l. all is_finite l ≡ true) all_posted fine,
              subst (λ i. All (IsPostable i) posted) (sym positive)
                  (subst (All (IsPostable (pos (suc k)))) all_posted (
                    add-IsPostable c request k now 0 ms
                      (sym (ap (λ o. o.polling_interval) same) ∙ positive))),
            )
      ]
