-- ===== src/Notify/Closing/Told.antt =====
-- How often `close` of gatling-rest/static/src/assets/js/bootstrap-notify.js calls `onClosed`.
use dist_gatling.Shared.{
  ℕ, zero, suc, ◌+◌, ◌*◌, ◌≡◌, ◌≤◌, refl, sym, ap, ◌∙◌, subst, Bool, true, false, not, some, [],
  ◌∷◌, map, length, All, arith, inl, inr, Bool-cases, length-append, length-map,
}
use dist_gatling.Notify.Closing.{
  Call, Fade, placed, new_call, close, remove, see_start, on_start, unbind_end, count_bound,
  remove_times, on_end, on_cancel, call_at, expire, on_timeout, Step, called, start, end, cancel,
  timeout, Reach, here, next,
}
use dist_gatling.Notify.Closing.Calls.{
  IsOver, IsPending, IsSeen, append-IsPending, append-IsSeen, as_number, count_bound-pending,
  end-IsSeen, expire-IsPending, expire-IsSeen, length-expire, over-gone, rest-IsSeen,
  start-IsPending, start-IsSeen, total, total-append, total-end, total-expire, total-once,
  total-pending, total-twice,
}

record IsTold (f : Fade) : Type 0 where
  pending : f.present ≡ true → All IsPending f.calls
  counted : f.on_closed ≡ total f.calls
  gone : f.present ≡ false → 1 ≤ f.on_closed
  rest : f.present ≡ false → f.running ≡ false
  called : 1 ≤ length f.calls

-- What removing so often leaves.
record IsRemoved (n : ℕ) (f g : Fade) : Type 0 where
  calls : g.calls ≡ f.calls
  on_closed : g.on_closed ≡ f.on_closed + n
  running : f.running ≡ false → g.running ≡ false
  kept : n ≡ 0 → g.present ≡ f.present
  gone : 1 ≤ n → g.present ≡ false
  absent : f.present ≡ false → g.present ≡ false

remove_times-IsRemoved : (n : ℕ) (f : Fade) → IsRemoved n f (remove_times n f)
unfolding remove_times remove
remove_times-IsRemoved zero f = ground arith
remove_times-IsRemoved (suc n) f =
    let h = remove_times-IsRemoved n (remove f) in
    record {
      calls = h.calls;
      on_closed = omega (arith, h.on_closed);
      running = λ e. h.running refl;
      kept = λ e. absurd (omega (arith, e));
      gone = λ e. h.absent refl;
      absent = λ e. h.absent refl;
    }

on_end-IsTold : (f : Fade) → f.present ≡ true → IsTold f → IsTold (on_end f)
unfolding on_end
on_end-IsTold f e h =
    let n = count_bound f.calls in
    let f1 = record f { running = false; calls = map unbind_end f.calls } in
    let r = remove_times-IsRemoved n f1 in
    let none_yet = total-pending f.calls (h.pending e) in
    let all = total-end f.calls (h.pending e) in
    let some_left = count_bound-pending f.calls (h.pending e) in
    record {
      pending = λ here. absurd (ground (arith, here, r.gone (omega (arith, some_left, h.called))));
      counted = r.on_closed ∙ omega (arith, h.counted, none_yet, all, ap total r.calls);
      gone = λ out. omega (arith, r.on_closed, some_left, h.called);
      rest = λ out. r.running refl;
      called = omega (arith, ap length r.calls, length-map unbind_end f.calls, h.called);
    }

on_timeout-IsTold :
    (i : ℕ) (c : Call) (f : Fade)
    → call_at i f.calls ≡ some c
    → c.waiting ≡ true
    → IsTold f
    → IsTold (on_timeout i c f)
unfolding on_timeout remove
on_timeout-IsTold i c f e w h =
    let more = total-expire i f.calls c e w in
    elim (Bool-cases c.has_animation) [
      | inl a ↦ rw a (record {
        pending = λ here. expire-IsPending i f.calls c e a (h.pending here);
        counted = omega (arith, h.counted, more, ap as_number (ap not a));
        gone = h.gone;
        rest = h.rest;
        called = omega (arith, h.called, length-expire i f.calls);
      })
      | inr a ↦ rw a (record {
        pending = λ here. absurd (ground (arith, here));
        counted = omega (arith, h.counted, more, ap as_number (ap not a));
        gone = λ out. omega arith;
        rest = λ out. refl;
        called = omega (arith, h.called, length-expire i f.calls);
      })
    ]

Step-IsTold : {f g : Fade} → Step f g → IsTold f → IsTold g
unfolding close on_start on_cancel
Step-IsTold (called f) h = record {
  pending = λ here. append-IsPending f.calls (h.pending here);
  counted = h.counted ∙ sym (total-append f.calls);
  gone = h.gone;
  rest = h.rest;
  called = omega (arith, h.called, length-append f.calls (new_call ∷ []));
}
Step-IsTold (start f e) h = record {
  pending = λ here. start-IsPending f.calls (h.pending here);
  counted = omega (
    arith,
    h.counted,
    total-pending f.calls (h.pending e),
    total-pending (map see_start f.calls) (start-IsPending f.calls (h.pending e)),
  );
  gone = h.gone;
  rest = λ out. absurd (ground (arith, e, out));
  called = omega (arith, h.called, length-map see_start f.calls);
}
Step-IsTold (end f e r) h = on_end-IsTold f e h
Step-IsTold (cancel f) h = record {
  pending = h.pending;
  counted = h.counted;
  gone = h.gone;
  rest = λ out. refl;
  called = h.called;
}
Step-IsTold (timeout f i c e w) h = on_timeout-IsTold i c f e w h

placed-IsTold : (running : Bool) → IsTold (close (placed running))
unfolding close total
placed-IsTold running = record {
  pending = λ here. ((refl, refl), tt);
  counted = refl;
  gone = λ out. absurd (ground (arith, out));
  rest = λ out. absurd (ground (arith, out));
  called = omega arith;
}

Reach-IsTold : (running : Bool) {f : Fade} → Reach (close (placed running)) f → IsTold f
Reach-IsTold running here = placed-IsTold running
Reach-IsTold running (next r s) = Step-IsTold s (Reach-IsTold running r)

abbrev Seen : Fade → Type 0
Seen f = IsSeen f.running f.calls

Step-Seen : {f g : Fade} → Step f g → Seen f → Seen g
unfolding close on_start on_cancel on_end on_timeout remove
Step-Seen (called f) h = append-IsSeen f.running f.calls h
Step-Seen (start f e) h = start-IsSeen f.running f.calls h
Step-Seen (end f e r) h =
    let f1 = record f { running = false; calls = map unbind_end f.calls } in
    let removed = remove_times-IsRemoved (count_bound f.calls) f1 in
    rw (removed.calls, removed.running refl) (end-IsSeen f.calls (rw r at h))
Step-Seen (cancel f) h = rest-IsSeen f.running f.calls h
Step-Seen (timeout f i c e w) h = elim (Bool-cases c.has_animation) [
  | inl a ↦ rw a (expire-IsSeen f.running i f.calls h)
  | inr a ↦ rw a (rest-IsSeen f.running (expire i f.calls) (expire-IsSeen f.running i f.calls h))
]

Reach-Seen : {f : Fade} → Reach (close (placed false)) f → Seen f
unfolding close
Reach-Seen here = (λ e. absurd (ground (arith, e)), λ e. absurd (ground (arith, e)))
Reach-Seen (next r s) = Step-Seen s (Reach-Seen r)

-- However often `close` is called on an element of the page, and however the animations of the element
-- and the timers of the calls interleave, also where the animation of the entry is under way at the
-- first call: while the element is on the page `onClosed` has not been called, when it is gone
-- `onClosed` has been called, and never more than twice for each call of `close`; once the timers of
-- all calls have expired and none of the calls has seen an animation start, the element is gone; and
-- where no animation was under way at the first call and there is no other call, `onClosed` has been
-- called exactly once when the element is gone.
pub Reach-told :
    (running : Bool) {f : Fade}
    → Reach (close (placed running)) f
    → (f.present ≡ true → f.on_closed ≡ 0)
      × (f.present ≡ false → 1 ≤ f.on_closed)
      × (f.on_closed ≤ 2 * length f.calls)
      × (All IsOver f.calls → f.present ≡ false)
      × (running ≡ false → length f.calls ≡ 1 → f.present ≡ false → f.on_closed ≡ 1)
Reach-told running {f} r =
    let h = Reach-IsTold running r in
    (
      λ here. h.counted ∙ total-pending f.calls (h.pending here),
      h.gone,
      omega (arith, h.counted, total-twice f.calls),
      λ over. elim (Bool-cases f.present) [
        | inl e ↦ absurd (over-gone f.calls h.called over (h.pending e))
        | inr e ↦ e
      ],
      λ quiet one out.
          let seen = Reach-Seen (subst (λ b. Reach (close (placed b)) f) quiet r) in
          omega (
            arith,
            h.counted,
            h.gone out,
            total-once f.calls one (rest-IsSeen f.running f.calls seen),
          ),
    )
