-- ===== src/Tests/Scrapes.antt =====
-- A scrape of the Prometheus plugin, step by step, with a poll in the middle of it.
use dcos_metrics.Tests.Senders.{formats, late}
use dcos_metrics.Tests.Values.{web, web_app}
use dcos_metrics.Plugins.PromText.Concurrent.{
  Step, Reach, Scrape, Server, prom_connector, begin_scrape, printed, new_server,
}
use dcos_metrics.Plugins.PromText.Concurrent.Pages.{IsAnswer, served-IsAnswer}
use dcos_metrics.Plugins.PromText.{Range}
use mathlib.Core.List.{Permᴰ}
use dcos_metrics.Prelude.{ℕ, zero, suc, String, Dict, List, ◌++◌, refl, some, [], ◌∷◌, All}

-- The first range visits the entries as they stand, and each one after it the other way round.
turned : {A : Type 0} (l : List A) (x : A) → Permᴰ (l ++ x ∷ []) (x ∷ l)
turned [] x = Permᴰ.cons refl Permᴰ.nil
turned (y ∷ l) x = Permᴰ.trans (Permᴰ.cons refl (turned l x)) (Permᴰ.swap refl refl)

abbrev backwards : Dict String → Dict String
backwards [] = []
backwards (x ∷ l) = backwards l ++ x ∷ []

backwards-Permᴰ : (l : Dict String) → Permᴰ (backwards l) l
backwards-Permᴰ [] = Permᴰ.nil
backwards-Permᴰ (x ∷ l) = Permᴰ.trans (turned (backwards l) x) (Permᴰ.cons refl (backwards-Permᴰ l))

as_is : (l : Dict String) → Permᴰ l l
as_is [] = Permᴰ.nil
as_is (x ∷ l) = Permᴰ.cons refl (as_is l)

abbrev ranges : ℕ → Range
ranges zero = record { visit = λ m. m; visit-Permᴰ = as_is }
ranges (suc n) = record { visit = backwards; visit-Permᴰ = backwards-Permᴰ }

abbrev polled_once : Server
polled_once = prom_connector formats late (web ∷ []) new_server

abbrev scrape : Scrape
scrape = record { ref = 1; done = 0; text = "" }

abbrev polled_twice : Server
polled_twice = prom_connector formats late (web_app ∷ []) (begin_scrape formats late polled_once)

abbrev written_by : Scrape
written_by = (printed formats late ranges scrape web polled_twice).1

abbrev one_written : Server
one_written = record (printed formats late ranges scrape web polled_twice).0 {
  scrapes = written_by ∷ [];
}

abbrev answered : Server
answered = record one_written {
  scrapes = [];
  served = (1, some written_by.text) ∷ one_written.served;
}

reached : Reach formats late new_server answered
unfolding begin_scrape prom_connector printed
reached =
    Reach.next
      (Reach.next
        (Reach.next (Reach.next (Reach.next Reach.here (Step.connector (web ∷ []))) Step.begin)
          (Step.connector (web_app ∷ [])))
        (Step.print ranges [] scrape [] web refl refl))
      (Step.finish [] written_by [] refl refl)

served-IsAnswer_example : All (IsAnswer formats late answered.fresh answered.polls) answered.served
served-IsAnswer_example = served-IsAnswer formats late reached
