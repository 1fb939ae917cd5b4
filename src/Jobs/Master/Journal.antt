-- ===== src/Jobs/Master/Journal.antt =====
-- The journal, and the state that a replay of it gives.
use dist_gatling.Shared.{
  ℕ, sym, ◌≡◌, refl, ap, ◌∙◌, Option, List, [], ◌∷◌, ◌++◌, map, Bool-cases, Option-cases, inl, inr,
}
use dist_gatling.Jobs.{JobDomainEvent}
use dist_gatling.Jobs.Database.{JobState, new, updated, has_job}
use dist_gatling.Jobs.Database.Places.{Place, unknown, move, place, updated-place}
use dist_gatling.Jobs.Database.Conserved.{IsConserved}
use dist_gatling.Jobs.Database.Updates.{Permits, updated-IsConserved}
use dist_gatling.Jobs.Master.{
  Entry, event, upload, Master, Done, returned, threw, ◌>>=◌, update, notify_workers,
}
use dist_gatling.Jobs.Master.Mailbox.{and_then, replay}

-- A property of the state that a handler leaves when it returns.
abbrev pub Holds {ℓ} : (Master → Type ℓ) → Done → Type ℓ
Holds P (returned m) = P m
Holds P (threw m) = Unit

pub Holds-bind {ℓ κ} :
    (P : Master → Type ℓ) (Q : Master → Type κ) (d : Done) (f : Master → Done)
    → Holds P d
    → ((m : Master) → P m → Holds Q (f m))
    → Holds Q (d >>= f)
Holds-bind P Q (returned m) f h k = k m h
Holds-bind P Q (threw m) f h k = tt

pub replay-append :
    (es fs : List Entry) (s : JobState) → replay (es ++ fs) s ≡ and_then (replay es s) (replay fs)
unfolding replay
replay-append [] fs s = refl
replay-append (upload t ∷ es) fs s = replay-append es fs s
replay-append (event e ∷ es) fs s = elim (Option-cases (updated e s)) [
  | inl n ↦ rw n refl
  | inr (t, y) ↦ rw y (replay-append es fs t)
]

-- What a journal does to a job, seen from outside.
unfoldable pub moves : List Entry → ℕ → Place → Place
unfolding move
moves [] a p = p
moves (upload t ∷ es) a p = moves es a p
moves (event e ∷ es) a p = moves es a (move e a p)

pub moves-append :
    (es fs : List Entry) (a : ℕ) (p : Place) → moves (es ++ fs) a p ≡ moves fs a (moves es a p)
unfolding moves
moves-append [] fs a p = refl
moves-append (upload t ∷ es) fs a p = moves-append es fs a p
moves-append (event e ∷ es) fs a p = moves-append es fs a (move e a p)

-- A journal that is some events ahead of the database, in which no job is lost.
pub record IsAhead (es : List JobDomainEvent) (journal : List Entry) (s : JobState) : Type 0 where
  pub conserved : IsConserved s
  pub replayed : replay journal new ≡ replay (map event es) s
  pub moved : (a : ℕ) → moves journal a unknown ≡ moves (map event es) a (place a s)

abbrev pub Ahead : List JobDomainEvent → Master → Type 0
Ahead es m = IsAhead es m.journal m.job_database

-- Entries are added to a journal that is not ahead.
pub journal-IsAhead :
    (es : List JobDomainEvent) (journal : List Entry) (s : JobState)
    → IsAhead [] journal s
    → IsAhead es (journal ++ map event es) s
unfolding replay moves
journal-IsAhead es journal s h = record {
  conserved = h.conserved;
  replayed =
      replay-append journal (map event es) new
      ∙ ap (λ (o : Option JobState). and_then o (replay (map event es))) h.replayed;
  moved =
      λ a. moves-append journal (map event es) a unknown ∙ ap (moves (map event es) a) (h.moved a);
}

pub update-Ahead :
    (e : JobDomainEvent) (es : List JobDomainEvent) (m : Master)
    → Permits e m.job_database
    → Ahead (e ∷ es) m
    → Holds (Ahead es) (update e m)
unfolding update
update-Ahead e es m p h = elim (Option-cases (updated e m.job_database)) [
  | inl n ↦ rw n tt
  | inr (s, y) ↦ rw y (record {
    conserved = updated-IsConserved e m.job_database p y h.conserved;
    replayed =
        h.replayed
        ∙ unfold replay in ap (λ (o : Option JobState). and_then o (replay (map event es))) y;
    moved = λ a.
        h.moved a
        ∙ unfold moves in
          ap (moves (map event es) a) (sym (updated-place e a m.job_database p y h.conserved));
  })
]

pub notify_workers-Ahead :
    (es : List JobDomainEvent) (m : Master) → Ahead es m → Ahead es (notify_workers m)
unfolding notify_workers
notify_workers-Ahead es m h = elim (Bool-cases (has_job m.job_database)) [
  | inl e ↦ rw e h
  | inr e ↦ rw e h
]
