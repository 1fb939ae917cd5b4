-- ===== src/App/Metrics.antt =====
-- The metrics of the master: `MasterComponent` in
-- gatling-rest/static/src/app/dashboard/master/master.component.ts.
use text.Mathlib.Text.{starts_with}
use dist_gatling.Shared.{ℕ, Bool, String, Option, some, List, [], ◌∷◌, if◌then◌else◌}

pub record KeyVal : Type 0 where
  pub key : String
  pub val : ℕ

-- A property that `for (var key in dict)` comes to, and whether it is the object's own.
pub record Property : Type 0 where
  pub own : Bool
  pub entry : KeyVal

-- `transform`
unfoldable pub transform : List Property → List KeyVal
transform [] = []
transform (p ∷ ps) = let rest = transform ps in if p.own then p.entry ∷ rest else rest

pub record Master : Type 0 where
  pub metrics : Option (List KeyVal)
  pub error_message : Option String

-- The two functions given to `subscribe` in `fetchData`.
unfoldable pub fetched : List Property → Master → Master
unfolding transform
fetched dict m = record m { metrics = some (transform dict) }

unfoldable pub fetch_failed : String → Master → Master
fetch_failed message m = record m { error_message = some message }

-- The loop of the three functions.
unfoldable pub having : String → List KeyVal → List KeyVal
having prefix [] = []
having prefix (e ∷ es) =
    let rest = having prefix es in if starts_with e.key prefix then e ∷ rest else rest

-- `getMemoryMetrics`, `getThreadMetrics` and `getGcMetrics`
unfoldable pub get_memory_metrics : List KeyVal → List KeyVal
unfolding having
get_memory_metrics input = having "memory.heap." input

unfoldable pub get_thread_metrics : List KeyVal → List KeyVal
unfolding having
get_thread_metrics input = having "threads." input

unfoldable pub get_gc_metrics : List KeyVal → List KeyVal
unfolding having
get_gc_metrics input = having "gc." input
