-- ===== src/Tests/Timeouts.antt =====
-- Inputs for the timeout list.
use libdfu.Base.{ℕ, ◌≡◌, refl, ◌∷◌, [], List, true, none, some, arith, ◌==◌, if◌then◌else◌}
use libdfu.Timeouts.{Timers, insert_timeout, remove_timeout}
use libdfu.Timeouts.Insert.{HasRoom, insert_timeout-sorted}
use libdfu.Timeouts.Deadlines.{deadlines, insert_sorted, array, Distinct, InRange}
use libdfu.Timeouts.Remove.{Holds, without, remove_timeout-without}

-- Timeout 5 is due at 20 and timeout 6 at 50; timeout 7 is not listed and asks for a delay of 30.
abbrev two_timers : Timers
two_timers = record {
  slots = some 5 ∷ some 6 ∷ none ∷ none ∷ [];
  values = λ p. (if p == 5 then 20 else 30);
}

abbrev room : HasRoom two_timers (5 ∷ 6 ∷ [])
room = record { free = 1; slots = refl; size = refl }

apart : Distinct (5 ∷ 6 ∷ [])
apart = ((omega arith, tt), (tt, tt))

in_range : InRange 0 two_timers.values (5 ∷ 6 ∷ [])
in_range = (omega arith, (omega arith, omega arith))

insert_timeout-sorted_example :
    ((insert_timeout two_timers 7 10).0 ≡ true)
    × ((ids' : List ℕ) × ((insert_timeout two_timers 7 10).1.slots ≡ array ids' 1)
        × (deadlines 0 (insert_timeout two_timers 7 10).1.values ids'
            ≡ insert_sorted 7 40 (deadlines 0 two_timers.values (5 ∷ 6 ∷ []))))
insert_timeout-sorted_example =
    insert_timeout-sorted two_timers (5 ∷ 6 ∷ []) 7 10 room (omega arith, (omega arith, tt)) apart
      in_range (omega arith)

abbrev held : Holds two_timers (5 ∷ 6 ∷ [])
held = record { free = 2; slots = refl; size = refl }

remove_timeout-without_example :
    ((remove_timeout two_timers 5).0 ≡ true)
    × ((remove_timeout two_timers 5).1.slots ≡ array (6 ∷ []) 3)
    × (deadlines 0 (remove_timeout two_timers 5).1.values (6 ∷ [])
        ≡ without 5 (deadlines 0 two_timers.values (5 ∷ 6 ∷ [])))
remove_timeout-without_example = remove_timeout-without two_timers [] (6 ∷ []) 5 held apart in_range
