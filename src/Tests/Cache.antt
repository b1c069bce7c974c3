-- ===== src/Tests/Cache.antt =====
-- Examples of producers/http/http.go.
use dcos_metrics.Prelude.{
  String, ◌≡◌, refl, ◌≢◌, true, none, some, [], ◌∷◌, arith, lookup, Dict, latest, keys, str_le,
  join, lookup_or, false, ◌==◌, eq_iff, insert, ◌+◌, ◌<◌, ◌^◌, ◌↔◌, ◌*◌,
}
use dcos_metrics.Producers.{Datapoint, MetricsMessage}
use dcos_metrics.Producers.Cache.{
  qualified_name, is_stale, janitor_tick, message_prefix, receive_all, sweep, write_object_to_store,
}
use dcos_metrics.Tests.Values.{web_key, cpu, only_web, minute, web, web_app, clock}
use dcos_metrics.Producers.Cache.Janitor.{janitor_tick-none, janitor_tick_exact}
use dcos_metrics.Producers.Store.{Object, foreign, StoreApi}
use dcos_metrics.Producers.Store.{message}
use dcos_metrics.Producers.Store.Lists.{list_store, normal}
use dcos_metrics.Prelude.Int.{pos}
use dcos_metrics.Producers.Cache.History.{writes, get-receive_all, qualified_name-SameMap}
use dcos_metrics.Producers.SortTags.Laws.{SameMap}
use dcos_metrics.Producers.Cache.Interleaving.{
  IsFiled, Reach, State, written, stored-IsFiled, next, tick, here, write, start,
}
use mathlib.Core.List.{Permᴰ}
use mathlib.Core.Path.{subst}
use dcos_metrics.Producers.Cache.Expiry.{is_stale_iff}
use dcos_metrics.Producers.Cache.Runs.{sweep-pending}

web_key_of_cpu : qualified_name (message_prefix web) cpu ≡ web_key
unfolding qualified_name message_prefix keys str_le join lookup_or lookup
web_key_of_cpu = refl

web-is_stale : is_stale minute (pos 200000000000) web ≡ true
unfolding is_stale
web-is_stale = refl

pub only_web_clean : (j : String) → lookup j only_web ≢ some foreign
unfolding lookup
only_web_clean j e = ground arith

pub found_web : lookup web_key only_web ≡ some (message web)
unfolding lookup
found_web = refl

janitor_tick_exact_example :
    (t : Dict Object) × (janitor_tick list_store minute clock only_web ≡ some t)
    × (lookup web_key t ≡ none)
janitor_tick_exact_example =
    janitor_tick_exact list_store minute clock only_web web_key web true only_web_clean found_web
      (λ _. web-is_stale)

janitor_tick-none_example : lookup {V = Object} "other" [] ≡ none
unfolding janitor_tick lookup sweep normal
janitor_tick-none_example = janitor_tick-none list_store minute clock [] [] "other" refl refl

get-receive_all_example :
    lookup web_key (receive_all list_store (web ∷ web_app ∷ []) [])
    ≡ latest web_key (writes (web ∷ web_app ∷ [])) none
unfolding lookup
get-receive_all_example = get-receive_all list_store web_key (web ∷ web_app ∷ []) []

abbrev cpu_swapped : Datapoint
cpu_swapped = record cpu { tags = ("host", "a") ∷ ("zone", "b") ∷ [] }

zone_or_host : (k : String) → ("zone" == k) ≡ true → ("host" == k) ≡ false
zone_or_host k h = subst (λ x. ("host" == x) ≡ false) ((eq_iff "zone" k).0 h) refl

same_tags : SameMap cpu.tags cpu_swapped.tags
unfolding lookup keys
same_tags = record {
  same_keys = Permᴰ.swap refl refl;
  same_values = λ k. ground (arith, zone_or_host k);
}

qualified_name-SameMap_example : qualified_name "p" cpu ≡ qualified_name "p" cpu_swapped
qualified_name-SameMap_example = qualified_name-SameMap "p" cpu cpu_swapped refl same_tags

-- The store after the message of the container.
abbrev pub after_web : State list_store
after_web = written list_store cpu web (start list_store)

pub after_web_reached : Reach list_store minute (start list_store) after_web
after_web_reached = next here (write cpu web)

pub found_after_web : lookup web_key after_web.store ≡ some (message web)
unfolding lookup write_object_to_store insert qualified_name keys str_le join message_prefix
    lookup_or
found_after_web = refl

stored-IsFiled_example : IsFiled list_store web_key (message web)
stored-IsFiled_example =
    stored-IsFiled list_store after_web_reached web_key (message web) found_after_web

-- A new message of the same container.
abbrev newer : MetricsMessage
newer = record web { timestamp = pos 190 }

-- What the janitor has in its hands while the new message is written.
abbrev ticked : State list_store
ticked = record after_web { pending = StoreApi.objects list_store after_web.store }

ticked_reached : Reach list_store minute (start list_store) ticked
ticked_reached = next after_web_reached (tick refl)

sweep-pending_example :
    (u : Dict Object) × (sweep list_store minute (λ _. pos 200000000000) 0 ticked.pending only_web
      ≡ some u)
sweep-pending_example =
    sweep-pending list_store minute ticked_reached (λ _. pos 200000000000) 0 only_web

recent_clock : 200000000000 < 2 ^ 63
recent_clock = omega arith

recent_message : 100 * 1000000000 < 2 ^ 63
recent_message = omega arith

is_stale_iff_example :
    (is_stale (pos 60000000000) (pos 200000000000) web ≡ true)
    ↔ (100 * 1000000000 + 60000000000 < 200000000000)
is_stale_iff_example =
    is_stale_iff 60000000000 200000000000 100 web refl recent_clock recent_message
