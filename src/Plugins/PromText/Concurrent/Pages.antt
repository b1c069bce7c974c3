-- ===== src/Plugins/PromText/Concurrent/Pages.antt =====
-- Each scrape gets a page of one poll.
use dcos_metrics.Plugins.PromText.Concurrent.{
  Step, Reach, Scrape, Server, assign, prom_connector, begin_scrape, printed, new_server,
}
use dcos_metrics.Plugins.PromText.{Formats}
use dcos_metrics.Plugins.PromText.Concurrent.Likeness.{
  AllLike, AllLike-refl, AllLike-nth, AllLike-none, AllLike-put_at, AllLike-nil, IsText-suc,
  IsText-all, IsPage-some, after_printing, text_of,
}
use dcos_metrics.Prelude.{
  ℕ, ◌+◌, ◌<◌, String, ◌≡◌, refl, sym, ◌≢◌, ◌⊎◌, inl, inr, Option, none, List, [], ◌∷◌, arith,
  if◌then◌else◌, All, All-remove, All-insert, Bool-cases, eqb, ◌<>◌, suc,
}
use dcos_metrics.Plugins.Convert.{Conversions}
use dcos_metrics.Producers.{MetricsMessage}
use mathlib.Core.Path.{subst}
use dcos_metrics.Plugins.PromText.Laws.{IsText, IsPage}

module _ (p : Formats) (c : Conversions) where
  module _ (fresh : ℕ) (polls : ℕ → List MetricsMessage) where
    -- A scrape that is under way refers to a list with messages, and its text is the page of those that it has written.
    abbrev IsUnderWay : Scrape → Type 0
    IsUnderWay r = (r.ref < fresh) × (polls r.ref ≢ []) × IsText p c r.done (polls r.ref) r.text

    -- An answer is a page of a poll.
    abbrev pub IsAnswer : ℕ × Option String → Type 0
    IsAnswer (ref, answer) = (ref < fresh) × IsPage p c (polls ref) answer

  record IsSound (s : Server) : Type 0 where
    known : s.latest_metrics < s.fresh
    like : (i : ℕ) → AllLike p c (s.memory i) (s.polls i)
    under_way : All (IsUnderWay s.fresh s.polls) s.scrapes
    answers : All (IsAnswer s.fresh s.polls) s.served

  -- A new list leaves those before it.
  assign-other : {A : Type 0} (i j : ℕ) (a : A) (f : ℕ → A) → j < i → assign i a f j ≡ f j
  assign-other i j a f h = ground (arith, h)

  assign-like :
      (i : ℕ) (l l₀ : List MetricsMessage) (f g : ℕ → List MetricsMessage)
      → AllLike p c l l₀
      → ((j : ℕ) → AllLike p c (f j) (g j))
      → (j : ℕ) → AllLike p c (assign i l f j) (assign i l₀ g j)
  assign-like i l l₀ f g h k j = elim (Bool-cases (eqb i j)) [
    | inl e ↦ subst (λ b. AllLike p c (if b then l else f j) (if b then l₀ else g j)) (sym e) h
    | inr e ↦ subst (λ b. AllLike p c (if b then l else f j) (if b then l₀ else g j)) (sym e) (k j)
  ]

  -- A list that is written to stays like the one that the poll left.
  put-like :
      (i : ℕ) (l : List MetricsMessage) (f g : ℕ → List MetricsMessage)
      → AllLike p c l (g i)
      → ((j : ℕ) → AllLike p c (f j) (g j))
      → (j : ℕ) → AllLike p c (assign i l f j) (g j)
  put-like i l f g h k j = elim (Bool-cases (eqb i j)) [
    | inl e ↦
        let same : i ≡ j = ground (arith, e) in
        subst (λ b. AllLike p c (if b then l else f j) (g j)) (sym e)
          (subst (λ x. AllLike p c l (g x)) same h)
    | inr e ↦ subst (λ b. AllLike p c (if b then l else f j) (g j)) (sym e) (k j)
  ]

  IsUnderWay-later :
      (fresh : ℕ) (polls : ℕ → List MetricsMessage) (ms : List MetricsMessage) (l : List Scrape)
      → All (IsUnderWay fresh polls) l
      → All (IsUnderWay (fresh + 1) (assign fresh ms polls)) l
  IsUnderWay-later fresh polls ms [] h = tt
  IsUnderWay-later fresh polls ms (r ∷ l) ((i, n, t), hs) =
      let same = sym (assign-other fresh r.ref ms polls i) in
      (
        (
          omega (arith, i),
          subst (λ x. x ≢ []) same n,
          subst (λ x. IsText p c r.done x r.text) same t,
        ),
        IsUnderWay-later fresh polls ms l hs,
      )

  IsAnswer-later :
      (fresh : ℕ) (polls : ℕ → List MetricsMessage) (ms : List MetricsMessage)
      (l : List (ℕ × Option String))
      → All (IsAnswer fresh polls) l
      → All (IsAnswer (fresh + 1) (assign fresh ms polls)) l
  IsAnswer-later fresh polls ms [] h = tt
  IsAnswer-later fresh polls ms ((ref, answer) ∷ l) ((i, e), hs) = (
    (
      omega (arith, i),
      subst (λ x. IsPage p c x answer) (sym (assign-other fresh ref ms polls i)) e,
    ),
    IsAnswer-later fresh polls ms l hs,
  )

  connector-IsSound :
      (ms : List MetricsMessage) (s : Server) → IsSound s → IsSound (prom_connector p c ms s)
  unfolding prom_connector
  connector-IsSound ms s i = record {
    known = omega arith;
    like = assign-like s.fresh ms ms s.memory s.polls (AllLike-refl p c ms) i.like;
    under_way = IsUnderWay-later s.fresh s.polls ms s.scrapes i.under_way;
    answers = IsAnswer-later s.fresh s.polls ms s.served i.answers;
  }

  list_cases :
      (l : List MetricsMessage)
      → (l ≡ []) ⊎ ((m : MetricsMessage) × (ms : List MetricsMessage) × (l ≡ m ∷ ms))
  list_cases [] = inl refl
  list_cases (m ∷ ms) = inr (m, ms, refl)

  begin_scrape-empty :
      (s : Server)
      → s.memory s.latest_metrics ≡ []
      → begin_scrape p c s ≡ record s { served = (s.latest_metrics, none) ∷ s.served }
  unfolding begin_scrape
  begin_scrape-empty s e = rw (e, begin_scrape) refl

  begin_scrape-some :
      (s : Server) (m : MetricsMessage) (ms : List MetricsMessage)
      → s.memory s.latest_metrics ≡ m ∷ ms
      → begin_scrape p c s
        ≡ record s { scrapes = record { ref = s.latest_metrics; done = 0; text = "" } ∷ s.scrapes }
  unfolding begin_scrape
  begin_scrape-some s m ms e = rw (e, begin_scrape) refl

  begin-IsSound : (s : Server) → IsSound s → IsSound (begin_scrape p c s)
  unfolding begin_scrape
  begin-IsSound s i = elim (list_cases (s.memory s.latest_metrics)) [
    | inl e ↦
        let empty : s.polls s.latest_metrics ≡ [] =
          AllLike-nil p c (s.polls s.latest_metrics)
            (subst (λ l. AllLike p c l (s.polls s.latest_metrics)) e (i.like s.latest_metrics)) in
        subst IsSound (sym (begin_scrape-empty s e)) (record {
          known = i.known;
          like = i.like;
          under_way = i.under_way;
          answers = ((i.known, subst (λ x. IsPage p c x none) (sym empty) refl), i.answers);
        })
    | inr (m, ms, e) ↦ subst IsSound (sym (begin_scrape-some s m ms e)) (record {
      known = i.known;
      like = i.like;
      under_way = (
        (
          i.known,
          (λ n.
              subst (λ l. AllLike p c (m ∷ ms) l) n
                (subst (λ l. AllLike p c l (s.polls s.latest_metrics)) e
                  (i.like s.latest_metrics))),
          refl,
        ),
        i.under_way,
      );
      answers = i.answers;
    })
  ]

  Step-IsSound : {s t : Server} → Step p c s t → IsSound s → IsSound t
  unfolding printed
  Step-IsSound {s} (Step.connector ms) i = connector-IsSound ms s i
  Step-IsSound {s} Step.begin i = begin-IsSound s i
  Step-IsSound {s} (Step.print ranges before r after m e f) i =
      let (u, rest) =
        All-remove (IsUnderWay s.fresh s.polls) before r after
          (subst (All (IsUnderWay s.fresh s.polls)) e i.under_way) in
      let (m₀, g, k) = AllLike-nth p c (s.memory r.ref) (s.polls r.ref) r.done m (i.like r.ref) f in
      record {
        known = i.known;
        like =
            put-like r.ref _ s.memory s.polls
              (AllLike-put_at p c (s.memory r.ref) (s.polls r.ref) r.done _ m₀ (i.like r.ref) g
                (after_printing p c ranges m m₀ k))
              i.like;
        under_way =
            All-insert (IsUnderWay s.fresh s.polls) before (printed p c ranges r m s).1 after
              (
                u.0,
                u.1,
                subst (λ y. IsText p c (suc r.done) (s.polls r.ref) (r.text <> p.format y))
                    (sym (text_of p c ranges m m₀ k))
                    (IsText-suc p c r.done (s.polls r.ref) m₀ r.text ranges g u.2),
              )
              rest;
        answers = i.answers;
      }
  Step-IsSound {s} (Step.finish before r after e f) i =
      let (u, rest) =
        All-remove (IsUnderWay s.fresh s.polls) before r after
          (subst (All (IsUnderWay s.fresh s.polls)) e i.under_way) in
      let all_done = AllLike-none p c (s.memory r.ref) (s.polls r.ref) r.done (i.like r.ref) f in
      record {
        known = i.known;
        like = i.like;
        under_way = rest;
        answers = (
          (
            u.0,
            IsPage-some p c (s.polls r.ref) r.text u.1
                (IsText-all p c r.done (s.polls r.ref) r.text all_done u.2),
          ),
          i.answers,
        );
      }

  Reach-IsSound : {s : Server} → Reach p c new_server s → IsSound s
  Reach-IsSound Reach.here = record {
    known = omega arith;
    like = λ i. tt;
    under_way = tt;
    answers = tt;
  }
  Reach-IsSound (Reach.next r step) = Step-IsSound step (Reach-IsSound r)

  -- Whatever the connector and any number of scrapes at the same time do, message by message in any order, and whatever order the ranges over the labels take: each answer is a page of the messages of one single poll as the poll left them, that of the poll whose list the scrape took. It is status 204 without messages, and else has for each message the lines of its datapoints whose timestamp parses, with its own labels in some order.
  pub served-IsAnswer :
      {s : Server} → Reach p c new_server s → All (IsAnswer s.fresh s.polls) s.served
  served-IsAnswer r = IsSound.answers (Reach-IsSound r)
