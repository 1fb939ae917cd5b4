-- ===== src/Examples/Greeting.antt =====
-- Draws for the greeting, gatling-rest/static/src/assets/js/demo.js and notify.js beside it.
use dist_gatling.Shared.{List, [], ◌∷◌}
use dist_gatling.Greeting.Color.{Request}

abbrev requests : List Request
requests = (7, "top", "right") ∷ (8, "bottom", "left") ∷ []
