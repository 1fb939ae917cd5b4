-- ===== src/Greeting/Color.antt =====
-- Which greeting is shown, and how often.
use dist_gatling.Shared.{
  ℕ, ◌+◌, ◌-◌, ◌/◌, ◌^◌, ◌<◌, ◌≤◌, ◌≡◌, refl, false, some, none, String, List, [], ◌∷◌, get_elem?,
  arith, zero, suc, str_eq, sym, ap, ◌∙◌,
}
use dist_gatling.Greeting.{types, unit, color, show_notification, Session, loaded, init_notify}

-- Every draw but the last gives the color of its quarter.
pub color_quarter : (k : ℕ) → k + 1 < unit → color k ≡ 1 + k / 2 ^ 51
unfolding color
color_quarter k h = ground arith

color_last : color (unit - 1) ≡ 5
unfolding color
color_last = refl

type_at :
    (c : ℕ) → 1 ≤ c → c ≤ 4 → (t : String) × (get_elem? types c ≡ some t) × (str_eq t "" ≡ false)
type_at zero lo hi = absurd (omega arith)
type_at (suc zero) lo hi = ("info", refl, refl)
type_at (suc (suc zero)) lo hi = ("success", refl, refl)
type_at (suc (suc (suc zero))) lo hi = ("warning", refl, refl)
type_at (suc (suc (suc (suc zero)))) lo hi = ("danger", refl, refl)
type_at (suc (suc (suc (suc (suc c))))) lo hi = absurd (omega arith)

-- For every draw but the greatest the greeting of demo.js has a type of the list, which is not the
-- empty one, namely that of the draw's quarter; for the greatest the sum is rounded up to 5, where
-- the list ends, and the type is undefined.
type-show_notification :
    (k : ℕ) (from align : String)
    → (k + 1 < unit
        → (t : String) × ((show_notification k from align).type ≡ some t)
          × (str_eq t "" ≡ false)
          × (some t ≡ get_elem? types (1 + k / 2 ^ 51)))
      × (k + 1 ≡ unit → (show_notification k from align).type ≡ none)
unfolding show_notification
type-show_notification k from align = (
  λ small.
      let e = color_quarter k small in
      let (t, here, full) = type_at (color k) (omega (arith, e)) (omega (arith, e)) in
      (t, here, full, sym here ∙ ap (get_elem? types) e),
  λ last. let q : k ≡ unit - 1 = omega arith in ap (get_elem? types) (ap color q ∙ color_last),
)

-- a request of a greeting: the draw, and where it is to stand
abbrev pub Request : Type 0
Request = ℕ × String × String

pub notify_all : List Request → Session → Session
notify_all [] s = s
notify_all ((k, from, align) ∷ rs) s = notify_all rs (init_notify k from align s)

init_notify_later :
    (k : ℕ) (from align : String) (s : Session)
    → s.in_notify ≡ false
    → init_notify k from align s ≡ s
unfolding init_notify
init_notify_later k from align s h = ground arith

notify_all_later : (rs : List Request) (s : Session) → s.in_notify ≡ false → notify_all rs s ≡ s
unfolding notify_all
notify_all_later [] s h = refl
notify_all_later ((k, from, align) ∷ rs) s h =
    ap (notify_all rs) (init_notify_later k from align s h) ∙ notify_all_later rs s h

-- Of any requests to notify.js the first alone is shown.
notify_all-once :
    (k : ℕ) (from align : String) (rs : List Request)
    → (notify_all ((k, from, align) ∷ rs) loaded).calls ≡ (init_notify k from align loaded).calls
unfolding notify_all init_notify
notify_all-once k from align rs =
    ap (λ (s : Session). s.calls) (notify_all_later rs (init_notify k from align loaded) refl)
