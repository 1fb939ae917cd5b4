-- ===== src/Notify/Closing/Calls.antt =====
-- The calls of `close` of gatling-rest/static/src/assets/js/bootstrap-notify.js: what their closures
-- have told, and what holds of them together.
use dist_gatling.Shared.{
  ℕ, zero, suc, ◌+◌, ◌*◌, ◌≡◌, ◌≤◌, refl, ap, Bool, true, false, not, ◌&&◌, ◌||◌, some, List, [],
  ◌∷◌, ◌++◌, map, length, All, if◌then◌else◌, arith,
}
use dist_gatling.Notify.Closing.{
  Call, new_call, see_start, unbind_end, count_bound, call_at, expire,
}

abbrev pub as_number : Bool → ℕ
as_number b = if b then 1 else 0

-- How often a call has called `onClosed`: at the end of an animation, and when its timer has expired
-- before it saw the start of one.
abbrev told_by : Call → ℕ
told_by c = as_number (not c.end_bound) + as_number (not c.waiting && not c.has_animation)

unfoldable pub total : List Call → ℕ
total [] = 0
total (c ∷ cs) = told_by c + total cs

-- While the element is there, a call waits for its timer or has seen a start, and for the end.
abbrev pub IsPending : Call → Type 0
IsPending c = (c.end_bound ≡ true) × ((c.waiting || c.has_animation) ≡ true)

-- Of one call only, where no animation was under way: an animation that is under way or has ended was
-- seen to start.
abbrev pub IsSeen : Bool → List Call → Type 0
IsSeen running [] = ⊥
IsSeen running (c ∷ []) =
    ((running ≡ true) → c.has_animation ≡ true) × (c.end_bound ≡ false → c.has_animation ≡ true)
IsSeen running (c ∷ d ∷ cs) = Unit

pub total-append : (cs : List Call) → total (cs ++ new_call ∷ []) ≡ total cs
unfolding total
total-append [] = refl
total-append (c ∷ cs) = ap (λ n. told_by c + n) (total-append cs)

pub append-IsPending : (cs : List Call) → All IsPending cs → All IsPending (cs ++ new_call ∷ [])
append-IsPending [] h = ((refl, refl), tt)
append-IsPending (c ∷ cs) (h, hs) = (h, append-IsPending cs hs)

-- Pending calls have told nothing, and a start does not change that.
pub total-pending : (cs : List Call) → All IsPending cs → total cs ≡ 0
unfolding total
total-pending [] h = refl
total-pending (c ∷ cs) (h, hs) = ground (arith, h.0, h.1, total-pending cs hs)

pub start-IsPending : (cs : List Call) → All IsPending cs → All IsPending (map see_start cs)
start-IsPending [] h = tt
start-IsPending (c ∷ cs) (h, hs) = ((h.0, ground arith), start-IsPending cs hs)

-- At the end of an animation each pending call tells once.
pub total-end : (cs : List Call) → All IsPending cs → total (map unbind_end cs) ≡ count_bound cs
unfolding total count_bound
total-end [] h = refl
total-end (c ∷ cs) (h, hs) = ground (arith, h.0, h.1, total-end cs hs)

pub count_bound-pending : (cs : List Call) → All IsPending cs → count_bound cs ≡ length cs
unfolding count_bound
count_bound-pending [] h = refl
count_bound-pending (c ∷ cs) (h, hs) = ground (arith, h.0, count_bound-pending cs hs)

pub total-expire :
    (i : ℕ) (cs : List Call) (c : Call)
    → call_at i cs ≡ some c
    → c.waiting ≡ true
    → total (expire i cs) ≡ total cs + as_number (not c.has_animation)
unfolding total expire call_at
total-expire i [] c e w = absurd (ground arith)
total-expire zero (d ∷ cs) c e w = ground (arith, e, w)
total-expire (suc i) (d ∷ cs) c e w = omega (arith, total-expire i cs c e w)

pub expire-IsPending :
    (i : ℕ) (cs : List Call) (c : Call)
    → call_at i cs ≡ some c
    → c.has_animation ≡ true
    → All IsPending cs
    → All IsPending (expire i cs)
unfolding expire call_at
expire-IsPending i [] c e a h = tt
expire-IsPending zero (d ∷ cs) c e a (h, hs) = ((h.0, ground (arith, e, a)), hs)
expire-IsPending (suc i) (d ∷ cs) c e a (h, hs) = (h, expire-IsPending i cs c e a hs)

pub length-expire : (i : ℕ) (cs : List Call) → length (expire i cs) ≡ length cs
unfolding expire
length-expire i [] = refl
length-expire zero (c ∷ cs) = refl
length-expire (suc i) (c ∷ cs) = ap suc (length-expire i cs)

pub append-IsSeen : (b : Bool) (cs : List Call) → IsSeen b cs → IsSeen b (cs ++ new_call ∷ [])
append-IsSeen b [] h = absurd h
append-IsSeen b (c ∷ []) h = tt
append-IsSeen b (c ∷ d ∷ cs) h = tt

pub start-IsSeen : (b : Bool) (cs : List Call) → IsSeen b cs → IsSeen true (map see_start cs)
start-IsSeen b [] h = h
start-IsSeen b (c ∷ []) h = (λ e. refl, λ e. refl)
start-IsSeen b (c ∷ d ∷ cs) h = tt

pub end-IsSeen : (cs : List Call) → IsSeen true cs → IsSeen false (map unbind_end cs)
end-IsSeen [] h = h
end-IsSeen (c ∷ []) h = (λ e. h.0 refl, λ e. h.0 refl)
end-IsSeen (c ∷ d ∷ cs) h = tt

pub rest-IsSeen : (b : Bool) (cs : List Call) → IsSeen b cs → IsSeen false cs
rest-IsSeen b [] h = h
rest-IsSeen b (c ∷ []) h = (λ e. absurd (ground (arith, e)), h.1)
rest-IsSeen b (c ∷ d ∷ cs) h = tt

pub expire-IsSeen : (b : Bool) (i : ℕ) (cs : List Call) → IsSeen b cs → IsSeen b (expire i cs)
unfolding expire
expire-IsSeen b i [] h = h
expire-IsSeen b zero (c ∷ []) h = h
expire-IsSeen b (suc i) (c ∷ []) h = h
expire-IsSeen b zero (c ∷ d ∷ cs) h = tt
expire-IsSeen b (suc zero) (c ∷ d ∷ cs) h = tt
expire-IsSeen b (suc (suc i)) (c ∷ d ∷ cs) h = tt

pub total-twice : (cs : List Call) → total cs ≤ 2 * length cs
unfolding total
total-twice [] = omega arith
total-twice (c ∷ cs) = ground (arith, total-twice cs)

-- The timer of a call has expired, and the call has seen no animation start.
abbrev pub IsOver : Call → Type 0
IsOver c = (c.waiting ≡ false) × (c.has_animation ≡ false)

pub over-gone : (cs : List Call) → 1 ≤ length cs → All IsOver cs → All IsPending cs → ⊥
over-gone [] l h k = omega (arith, l)
over-gone (c ∷ cs) l (h, hs) (k, ks) = ground (arith, h.0, h.1, k.1)

pub total-once : (cs : List Call) → length cs ≡ 1 → IsSeen false cs → total cs ≤ 1
unfolding total
total-once [] l h = absurd h
total-once (c ∷ []) l h = ground (arith, h.1)
total-once (c ∷ d ∷ cs) l h = absurd (omega (arith, l))
