-- ===== src/Scheduler/RunQueue/Tests.antt =====
-- Examples of the linked queue: threads 3 and 4 wait, and 7 comes.
use rucux.Base.{ℕ, ◌≡◌, ◌⊎◌, refl, none, some, List, [], ◌∷◌, ◌==◌, if◌then◌else◌, arith}
use rucux.Scheduler.RunQueue.{RunQueue, Links, dequeue, init}
use rucux.Scheduler.RunQueue.Refines.{Represents, dequeue_refines}

abbrev links : Links
links = λ x. if x == 3 then some 4 else none

abbrev waiting : RunQueue
waiting = record { head = some 3; tail = some 4; count = 2 }

abbrev both : List ℕ
both = 3 ∷ 4 ∷ []

init-Represents : Represents links init []
unfolding init
init-Represents = record { chain = refl; ends = refl; once = tt; counted = refl }

waiting-Represents : Represents links waiting both
waiting-Represents = record {
  chain = (refl, (refl, refl));
  ends = refl;
  once = (((λ e. omega arith), tt), (tt, tt));
  counted = refl;
}

dequeue_refines_example :
    ((both ≡ []) × (dequeue links waiting ≡ (none, links, waiting)))
    ⊎ ((t : ℕ) × (r : List ℕ) × (both ≡ t ∷ r)
        × ((dequeue links waiting).0 ≡ some t)
        × Represents (dequeue links waiting).1 (dequeue links waiting).2 r)
dequeue_refines_example = dequeue_refines links waiting both waiting-Represents
