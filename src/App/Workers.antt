-- ===== src/App/Workers.antt =====
-- The list of workers: `WorkersComponent` in
-- gatling-rest/static/src/app/dashboard/workers/workers.component.ts.
use dist_gatling.Shared.{String, Option, some, List}

pub record Worker : Type 0 where
  pub actor : String
  pub host : String
  pub status : String
  pub worker_id : String

pub record Workers : Type 0 where
  pub workers : Option (List Worker)
  pub error_message : Option String

-- The two functions given to `subscribe` in `ngOnInit`.
unfoldable pub fetched : List Worker → Workers → Workers
fetched ws w = record w { workers = some ws }

unfoldable pub fetch_failed : String → Workers → Workers
fetch_failed message w = record w { error_message = some message }
