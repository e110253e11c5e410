-- ===== src/FileView/Tests.antt =====
-- A view of View.cpp on a small file.
use syncme.Prelude.{true, false, some, none, ◌≡◌, refl, arith, ◌⊎◌, ◌+◌, ◌-◌, ◌<◌, add_word}
use syncme.FileView.{View, System, open_view, map_view}
use syncme.FileView.Range.{Given, map_view-Given, map_view-beyond}

-- Windows of 8 bytes from multiples of 4, in a file of 30 bytes, all at the address 1000.
abbrev sys : System
sys = record { map_view_of_file = λ start size. some 1000; unmap_view_of_file = true }

abbrev idle : View
idle = record {
  maximal_size = 8;
  read_only = true;
  map_handle = true;
  size = 30;
  image = none;
  offset = 0;
  view_size = 0;
  refs = 0;
  mapped_size = 0;
}

abbrev closed_view : View
closed_view = record idle { maximal_size = 0; map_handle = false; size = 0 }

map_view-test : (map_view sys 4 idle 6 5).0 ≡ some 1002
unfolding map_view
map_view-test = refl

map_view-Given_example : let r = map_view sys 4 idle 6 5 in (r.0 ≡ none) ⊎ Given sys 4 idle 6 5 r
map_view-Given_example =
    map_view-Given sys 4 idle 6 5 (record { sized = omega arith; inside = omega arith }) refl
      (omega arith) (omega arith) (omega arith)

-- Seven bytes from 7 on pass the checks, but the window is 4 to 12.
map_view-beyond_example :
    let (p, v) = map_view sys 4 idle 7 7 in
    (p ≡ some (add_word 1000 (7 - v.offset)))
    × (v.image ≡ some 1000)
    × (v.offset + v.view_size < 14)
map_view-beyond_example =
    map_view-beyond sys 4 idle 7 7 1000 (record { sized = omega arith; inside = omega arith })
      (record { handle = refl; nonempty = omega arith; within = omega arith; small = omega arith })
      refl refl refl (omega arith)

opened : open_view 4 closed_view true 30 true 8 ≡ (true, record idle { maximal_size = 12 })
unfolding open_view
opened = refl
