-- ===== src/Queue/Racing/Turns.antt =====
-- Single turns of a race.
use os2_labs.Common.{◌≡◌, refl, true, false, Bool, List, ◌∷◌}
use os2_labs.Queue.{Ptr, Queue, done, aborted, fault}
use os2_labs.Queue.Racing.{Adding, Getting, add_step, get_step, Race, after_add, after_get, race}

abbrev pub racing : Queue → Adding → Getting → Race
racing q a g = record { queue = q; adding = a; getting = g }

module _ (fresh : Ptr) (q : Queue) (a : Adding) (g : Getting) (turns : List Bool) where
  pub race-add :
      (q' : Queue) (a' : Adding)
      → add_step fresh q a ≡ done (q', a')
      → race fresh (racing q a g) (true ∷ turns) ≡ race fresh (racing q' a' g) turns
  unfolding race after_add
  race-add q' a' step = rw (step, race) refl

  pub race-add_aborted :
      add_step fresh q a ≡ aborted → race fresh (racing q a g) (true ∷ turns) ≡ aborted
  unfolding race after_add
  race-add_aborted step = rw (step, race) refl

  pub race-add_fault : add_step fresh q a ≡ fault → race fresh (racing q a g) (true ∷ turns) ≡ fault
  unfolding race after_add
  race-add_fault step = rw (step, race) refl

  pub race-get :
      (q' : Queue) (g' : Getting)
      → get_step q g ≡ done (q', g')
      → race fresh (racing q a g) (false ∷ turns) ≡ race fresh (racing q' a g') turns
  unfolding race after_get
  race-get q' g' step = rw (step, race) refl

  pub race-get_fault : get_step q g ≡ fault → race fresh (racing q a g) (false ∷ turns) ≡ fault
  unfolding race after_get
  race-get_fault step = rw (step, race) refl
