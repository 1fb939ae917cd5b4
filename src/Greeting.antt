-- ===== src/Greeting.antt =====
-- The greeting of the dashboard: gatling-rest/static/src/assets/js/demo.js and notify.js beside it.
-- `Math.random()` is a parameter, a number k below 2 ^ 53 that stands for k / 2 ^ 53; the sum is
-- rounded as a double is.
pub mod Color
use dist_gatling.Shared.{
  ℕ, ◌+◌, ◌*◌, ◌/◌, ◌%◌, ◌^◌, Bool, true, false, String, Option, List, [], ◌∷◌, ◌++◌, get_elem?,
  ltb, ◌==◌, if◌then◌else◌,
}

abbrev pub types : List String
types = "" ∷ "info" ∷ "success" ∷ "warning" ∷ "danger" ∷ []

abbrev pub unit : ℕ
unit = 2 ^ 53

-- A sum in units of 2 ^ -53, rounded to a double: from 4 on the doubles stand 8 units apart, and a
-- sum in the middle goes to the even one. Below 4 a multiple of 4 units is a double.
unfoldable pub rounded : ℕ → ℕ
rounded m =
    let q = m / 8 in
    if ltb m (4 * unit)
    then m
    else if ltb (m % 8) 4
    then 8 * q
    else if m % 8 == 4
    then (if q % 2 == 0 then 8 * q else 8 * (q + 1))
    else 8 * (q + 1)

-- `Math.floor((Math.random() * 4) + 1)`
unfoldable pub color : ℕ → ℕ
unfolding rounded
color k = rounded (4 * k + unit) / unit

-- What `$.notify` is called with.
pub record Call : Type 0 where
  pub icon : String
  pub message : String
  pub type : Option String
  pub timer : ℕ
  pub from : String
  pub align : String

welcome : ℕ → ℕ → String → String → Call
unfolding color
welcome timer k from align = record {
  icon = "pe-7s-gift";
  message =
      "Welcome to <b>Light Bootstrap Dashboard</b> - a beautiful freebie for every web developer.";
  type = get_elem? types (color k);
  timer = timer;
  from = from;
  align = align;
}

-- `demo.showNotification`
unfoldable pub show_notification : ℕ → String → String → Call
unfolding welcome
show_notification k from align = welcome 4000 k from align

-- The global `inNotify` of notify.js, and the calls of `$.notify`.
pub record Session : Type 0 where
  pub in_notify : Bool
  pub calls : List Call

abbrev pub loaded : Session
loaded = record { in_notify = true; calls = [] }

-- `initNotify`
unfoldable pub init_notify : ℕ → String → String → Session → Session
unfolding welcome
init_notify k from align s =
    if s.in_notify
    then record { in_notify = false; calls = s.calls ++ welcome 1000 k from align ∷ [] }
    else s
