-- ===== src/Tests/SectorList.antt =====
-- Three free sectors, and a file that takes two of them and gives them back.
use libdfu.Base.{refl, ◌∷◌, [], arith}
use libdfu.Timeouts.Deadlines.{Distinct}
use libdfu.SectorList.{Links, sector_add, sector_list_init, add_sectors, get_sectors, free_sectors}
use libdfu.SectorList.Chains.{Chain}
use libdfu.SectorList.Moves.{TwoLists}
use libdfu.SectorList.Allocate.{Took, get_sectors-Took}
use libdfu.SectorList.Release.{free_sectors-TwoLists, swapped}

-- Sectors 1, 2 and 3 with the head 0, as they are set up.
abbrev set_up : Links
set_up = add_sectors 3 1 (sector_list_init (record { prev = λ s. 0; next = λ s. 0 }) 0) 0

set_up-Chain : Chain set_up 0 (3 ∷ 2 ∷ 1 ∷ []) 0
unfolding add_sectors sector_add sector_list_init
set_up-Chain = (refl, refl, (refl, refl, (refl, refl, (refl, refl))))

apart : Distinct (0 ∷ 3 ∷ 2 ∷ 1 ∷ [])
apart = (
  (omega arith, (omega arith, (omega arith, tt))),
  ((omega arith, (omega arith, tt)), ((omega arith, tt), (tt, tt))),
)

get_sectors-Took_example : Took 0 9 2 (3 ∷ 2 ∷ 1 ∷ []) (get_sectors 3 set_up 0 9 2)
get_sectors-Took_example =
    get_sectors-Took 3 set_up 0 9 2 (3 ∷ 2 ∷ 1 ∷ []) set_up-Chain apart
      (omega arith, (omega arith, (omega arith, (omega arith, tt)))) (omega arith)

abbrev taken : Links
taken = (get_sectors 3 set_up 0 9 2).1

taken-TwoLists : TwoLists taken 9 0 (2 ∷ 3 ∷ []) (1 ∷ [])
taken-TwoLists =
    swapped taken 0 9 (1 ∷ []) (2 ∷ 3 ∷ []) (get_sectors-Took_example.enough (omega arith)).1

free_sectors-TwoLists_example :
    TwoLists
      (free_sectors 2 taken 9 0 (taken.next 9) (taken.next (taken.next 9)))
      9
      0
      []
      (3 ∷ 2 ∷ 1 ∷ [])
free_sectors-TwoLists_example =
    free_sectors-TwoLists 2 taken 9 0 (taken.next 9) (taken.next (taken.next 9)) (2 ∷ 3 ∷ [])
      (1 ∷ []) (omega arith) refl refl taken-TwoLists
