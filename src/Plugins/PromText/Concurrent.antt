-- ===== src/Plugins/PromText/Concurrent.antt =====
-- plugins/prometheus/prometheus.go: the connector and any number of scrapes at the same time. Under its lock the connector puts a list of messages in the place of the latest one, and a scrape takes a reference to it, whose messages it then reads and writes outside the lock, one after the other. (That two scrapes write the map of one message in the same instant, which Go does not define, is not modelled.)
pub mod Pages
pub mod Likeness
use dcos_metrics.Plugins.PromText.{Formats, Range, message_to_prom_text}
use dcos_metrics.Prelude.{
  ℕ, zero, suc, ◌+◌, ◌-◌, ◌≤◌, ◌<◌, String, ◌≡◌, refl, sym, ap, ◌∙◌, ◌≢◌, ◌⊎◌, inl, inr, Bool, true,
  false, ◌&&◌, ◌||◌, not, Option, none, some, List, [], ◌∷◌, ◌++◌, arith, ◌==◌, eq_iff,
  if◌then◌else◌, eqb, ◌<>◌,
}
use dcos_metrics.Producers.{MetricsMessage}
use dcos_metrics.Plugins.Convert.{Conversions}

-- The element at a place, and another in its place.
abbrev pub nth {ℓ} : {A : Type ℓ} → List A → ℕ → Option A
nth [] n = none
nth (x ∷ l) zero = some x
nth (x ∷ l) (suc n) = nth l n

abbrev pub put_at {ℓ} : {A : Type ℓ} → ℕ → A → List A → List A
put_at n y [] = []
put_at zero y (x ∷ l) = y ∷ l
put_at (suc n) y (x ∷ l) = x ∷ put_at n y l

abbrev pub assign {ℓ} : {A : Type ℓ} → ℕ → A → (ℕ → A) → ℕ → A
assign i a f j = if eqb i j then a else f j

-- A call of `serveMetrics` that is under way: the list that it refers to, how many messages it has written, and the text so far.
pub record Scrape : Type 0 where
  pub ref : ℕ
  pub done : ℕ
  pub text : String

-- The lists in memory by their references, the latest of them (`latestMetrics`), the scrapes under way and the answers given; and, for the theorems, each list as the poll left it.
pub record Server : Type 0 where
  pub memory : ℕ → List MetricsMessage
  pub polls : ℕ → List MetricsMessage
  pub fresh : ℕ
  pub latest_metrics : ℕ
  pub scrapes : List Scrape
  pub served : List (ℕ × Option String)

module _ (p : Formats) (c : Conversions) where
  -- `promConnector`.
  unfoldable pub prom_connector : List MetricsMessage → Server → Server
  prom_connector metrics s = record s {
    memory = assign s.fresh metrics s.memory;
    polls = assign s.fresh metrics s.polls;
    latest_metrics = s.fresh;
    fresh = s.fresh + 1;
  }

  -- The begin of `serveMetrics`: without messages the answer is 204, which is `none`.
  unfoldable pub begin_scrape : Server → Server
  begin_scrape s = elim (s.memory s.latest_metrics) [
    | [] ↦ record s { served = (s.latest_metrics, none) ∷ s.served }
    | m ∷ ms ↦ record s {
      scrapes = record { ref = s.latest_metrics; done = 0; text = "" } ∷ s.scrapes;
    }
  ]

  -- One round of its loop: the message is printed, its labels in the order that each range takes, and its dimensions are left as the printing leaves them.
  unfoldable pub printed : (ℕ → Range) → Scrape → MetricsMessage → Server → Server × Scrape
  printed ranges r m s =
      let out = message_to_prom_text p c ranges m.dimensions m.datapoints in
      (
        record s {
          memory =
              assign r.ref (put_at r.done (record m { dimensions = out.1 }) (s.memory r.ref))
                s.memory;
        },
        record r { done = suc r.done; text = r.text <> p.format out.0 },
      )

  pub data Step (s : Server) : Server → Type 0 where
    connector : (metrics : List MetricsMessage) → Step s (prom_connector metrics s)
    begin : Step s (begin_scrape s)
    print :
        (ranges : ℕ → Range) (before : List Scrape) (r : Scrape) (after : List Scrape)
        (m : MetricsMessage)
        → s.scrapes ≡ before ++ r ∷ after
        → nth (s.memory r.ref) r.done ≡ some m
        → Step s (record (printed ranges r m s).0 {
          scrapes = before ++ (printed ranges r m s).1 ∷ after;
        })
    finish :
        (before : List Scrape) (r : Scrape) (after : List Scrape)
        → s.scrapes ≡ before ++ r ∷ after
        → nth (s.memory r.ref) r.done ≡ none
        → Step s (record s { scrapes = before ++ after; served = (r.ref, some r.text) ∷ s.served })

  pub data Reach (s : Server) : Server → Type 0 where
    here : Reach s s
    next : {t u : Server} → Reach s t → Step t u → Reach s u

-- At first there are no messages.
abbrev pub new_server : Server
new_server = record {
  memory = λ i. [];
  polls = λ i. [];
  fresh = 1;
  latest_metrics = 0;
  scrapes = [];
  served = [];
}
