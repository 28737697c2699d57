-- ===== src/Queue/Racing/Tests.antt =====
-- A queue with one value, and the theorems of the race on it.
use os2_labs.Common.{◌≡◌, ◌≢◌, refl, none, some, [], ◌∷◌, ◌==◌, if◌then◌else◌, arith, ℤ, pos}
use os2_labs.Queue.{Ptr, null, Queue, done, fault, queue_add, queue_get}
use os2_labs.Queue.Fifo.{IsQueue}
use os2_labs.Queue.Racing.{added, asking, attempting, gotten, race}
use os2_labs.Queue.Racing.Turns.{racing}
use os2_labs.Queue.Racing.Lost.{losing_turns, race-loses}

abbrev seven : Queue
seven = record {
  nodes = λ p. if p == 10 then some (record { val = pos 7; next = null }) else none;
  first = 10;
  last = 10;
  count = 1;
  max_count = 5;
  add_attempts = 1;
  get_attempts = 0;
  add_count = 1;
  get_count = 0;
}

seven-IsQueue : IsQueue seven ((10, pos 7) ∷ [])
seven-IsQueue = record {
  cells = (refl, omega arith, (null, refl, refl));
  nodup = (refl, tt);
  last = refl;
  count = refl;
  bound = omega arith;
}

race-loses_example :
    (r : Queue) × (race 20 (racing seven (attempting (pos 8)) asking) losing_turns
      ≡ done (racing r (added 1) (gotten (some (pos 7)))))
    × (r.count ≡ 1)
    × (queue_get r ≡ fault)
    × ((fresh₂ : Ptr) (val₂ : ℤ)
        → fresh₂ ≢ null
        → (s : Queue) × (s' : Queue) × (queue_add fresh₂ r val₂ ≡ done (s, 1))
          × (queue_get s ≡ done (s', some val₂)))
race-loses_example =
    race-loses 20 seven (10, pos 7) (pos 8) seven-IsQueue (omega arith) refl (omega arith) refl
