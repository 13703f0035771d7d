-- ===== src/TimeTravel/Graft.antt =====
-- A fork's new stream, and where it meets its origin.
use walrus_os.Base.{
  ℕ, suc, ◌+◌, ◌≡◌, refl, true, false, none, some, List, [], ◌∷◌, ◌++◌, ◌==◌, arith, eq_refl, drop,
  length, Bool-cases, inl, inr, ap, ◌∙◌, contains_text,
}
use walrus_os.Model.Event.{ProtocolEvent, memory_forked}
use walrus_os.Base.Result.{ok}
use walrus_os.Adapters.Ledger.{StoredEvent, protocol, stored_id}
use walrus_os.TimeTravel.{walk, diverge, find_parent}
use walrus_os.TimeTravel.Ancestor.{parts, ids}

find_parent-first :
    (pre post : List StoredEvent) (x : StoredEvent) (n : ℕ)
    → contains_text (stored_id x) (ids pre) ≡ false
    → find_parent (some (stored_id x)) n (pre ++ x ∷ post) ≡ some (x, n + length pre + 1)
unfolding find_parent
find_parent-first [] post x n h =
    let same : n + 1 ≡ n + 0 + 1 = omega arith in
    rw (find_parent, eq_refl (stored_id x)) (ap (λ m. some (x, m)) same)
find_parent-first (p ∷ pre) post x n h = elim (Bool-cases (stored_id p == stored_id x)) [
  | inl e ↦ absurd (ground arith)
  | inr e ↦
      let same : n + 1 + length pre + 1 ≡ n + suc (length pre) + 1 = omega arith in
      rw (find_parent, e)
        (find_parent-first pre post x (n + 1) (rw e at h) ∙ ap (λ m. some (x, m)) same)
]

drop-after :
    (pre post : List StoredEvent) (x : StoredEvent)
    → drop (suc (length pre)) (pre ++ x ∷ post) ≡ post
drop-after [] post x = refl
drop-after (p ∷ pre) post x = drop-after pre post x

walk-parts : (xs ys : List StoredEvent) → parts xs ys ≡ true → walk none 0 xs ys ≡ (none, 0)
unfolding walk
walk-parts [] ys h = refl
walk-parts (x ∷ xs) [] h = refl
walk-parts (x ∷ xs) (y ∷ ys) h = ground arith

-- The ancestor of a stream and a branch that starts with a fork at the stream's event `x` is `x`: the
-- stream's own events are those after `x`, and the branch's are all of its events.
pub diverge-fork :
    (pre post ys : List StoredEvent) (x : StoredEvent) (e : ProtocolEvent)
    → parts (pre ++ x ∷ post) (protocol e ∷ ys) ≡ true
    → contains_text (stored_id x) (ids pre) ≡ false
    → e.event_type ≡ memory_forked
    → e.parent_event ≡ some (stored_id x)
    → diverge (pre ++ x ∷ post) (protocol e ∷ ys) ≡ ok (some x, post, protocol e ∷ ys)
unfolding diverge find_parent
diverge-fork pre post ys x e apart first kind parent =
    let same : 0 + length pre + 1 ≡ suc (length pre) = omega arith in
    rw
      (
        diverge,
        walk-parts (pre ++ x ∷ post) (protocol e ∷ ys) apart,
        kind,
        parent,
        find_parent-first pre post x 0 first,
        same,
        drop-after pre post x,
      )
      refl
