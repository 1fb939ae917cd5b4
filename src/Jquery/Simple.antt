-- ===== src/Jquery/Simple.antt =====
-- Elements as plain functions from keys to values: they meet the law of `Jquery`.
use dist_gatling.Shared.{refl, if◌then◌else◌}
use dist_gatling.Jquery.{Key, Value, undefined, same_key, Jquery}

abbrev pub Attributes : Type 0
Attributes = Key → Value

-- The element's value at a key after a write.
abbrev pub write : Key → Value → Attributes → Attributes
write k v n i = if same_key k i then v else n i

instance abbrev pub simple : Jquery
simple = record { Node = Attributes; get = λ i n. n i; put = write; get-put = λ i k v n. refl }

-- an element with nothing set
abbrev pub blank : Attributes
blank _ = undefined
