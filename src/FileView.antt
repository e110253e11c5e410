-- ===== src/FileView.antt =====
-- lib/source/File/View.cpp: a window of a file mapping, moved when no pointer into it is out.
-- The system is a parameter: where MapViewOfFile puts a view, and whether it and UnmapViewOfFile
-- succeed. An address is a number; `none` is a null pointer.
pub mod Window
pub mod Range
mod Tests
use syncme.Prelude.{
  ℕ, zero, suc, ◌+◌, ◌-◌, ◌*◌, ◌/◌, ◌%◌, ◌^◌, ◌≡◌, Bool, true, false, not, ◌&&◌, ◌||◌, Option, none,
  some, ltb, leb, ◌==◌, if◌then◌else◌, add_word, min,
}

pub record View : Type 0 where
  pub maximal_size : ℕ
  pub read_only : Bool
  -- Whether `MapHandle` is set.
  pub map_handle : Bool
  pub size : ℕ
  pub image : Option ℕ
  pub offset : ℕ
  pub view_size : ℕ
  pub refs : ℕ
  -- What happened: the size that MapViewOfFile was last asked for.
  pub mapped_size : ℕ

-- The answers of the system during one call.
pub record System : Type 0 where
  pub map_view_of_file : ℕ → ℕ → Option ℕ
  pub unmap_view_of_file : Bool

-- The constructor, once `Granularity` is known.
pub view : View
view = record {
  maximal_size = 0;
  read_only = true;
  map_handle = false;
  size = 0;
  image = none;
  offset = 0;
  view_size = 0;
  refs = 0;
  mapped_size = 0;
}

is_set {ℓ} : {A : Type ℓ} → Option A → Bool
is_set none = false
is_set (some a) = true

-- `(max_size | (Granularity - 1)) + 1` in 64 bits, for a granularity that is a power of two.
unfoldable pub round_up : ℕ → ℕ → ℕ
round_up granularity max_size =
    add_word ((max_size / granularity) * granularity + (granularity - 1)) 1

-- `true` is S_OK. The handle `h` may be null.
unfoldable pub open_view : ℕ → View → Bool → ℕ → Bool → ℕ → Bool × View
unfolding is_set round_up
open_view granularity v h size read_only max_size =
    if h && (not (size == 0) && (v.refs == 0 && not (is_set v.image)))
    then (
      true,
      record v {
        maximal_size = round_up granularity max_size;
        read_only = read_only;
        map_handle = true;
        size = size;
      },
    )
    else (false, v)

closed : View → View
closed v = record v {
  maximal_size = 0;
  read_only = true;
  map_handle = false;
  size = 0;
  offset = 0;
  view_size = 0;
  refs = 0;
  mapped_size = 0;
}

unfoldable pub close : System → View → View
unfolding is_set closed
close sys v =
    if is_set v.image
    then if sys.unmap_view_of_file then closed (record v { image = none }) else v
    else closed v

-- The first attempt of Map: the range lies in the view that is mapped.
pub in_view : View → ℕ → ℕ → Option ℕ
in_view v offset size = elim v.image [
  | none ↦ none
  | some image ↦
      if leb v.offset offset && leb (add_word offset size) (add_word v.offset v.view_size)
      then some (add_word image (offset - v.offset))
      else none
]

-- The second: a new view from the last multiple of the granularity. Its size goes through LODW
-- to the system. The old view is unmapped; a failure of that is only logged.
remap : System → ℕ → View → ℕ → Option ℕ × View
remap sys granularity v offset =
    let start : ℕ = (offset / granularity) * granularity in
    let view_size : ℕ = min (v.size - start) v.maximal_size in
    let asked : ℕ = view_size % 2 ^ 32 in
    elim (sys.map_view_of_file start asked) [
      | none ↦ (
        none,
        record v { offset = start; view_size = view_size; image = none; mapped_size = asked },
      )
      | some image ↦ (
        some (add_word image (offset - start)),
        record v { offset = start; view_size = view_size; image = some image; mapped_size = asked },
      )
    ]

pub map_in : System → ℕ → View → ℕ → Option ℕ → Option ℕ × View
unfolding remap
map_in sys granularity v offset (some p) = (some p, v)
map_in sys granularity v offset none =
    if v.refs == 0 then remap sys granularity v offset else (none, v)

pub count_ref : Option ℕ × View → Option ℕ × View
count_ref (none, v) = (none, v)
count_ref (some p, v) = (some p, record v { refs = v.refs + 1 })

unfoldable pub map_view : System → ℕ → View → ℕ → ℕ → Option ℕ × View
unfolding in_view map_in count_ref
map_view sys granularity v offset size =
    if not v.map_handle
    then (none, v)
    else if size == 0
    then (none, v)
    else if leb v.size offset
    then (none, v)
    else if ltb v.size (add_word offset size)
    then (none, v)
    else if ltb (min v.size v.maximal_size) size
    then (none, v)
    else count_ref (map_in sys granularity v offset (in_view v offset size))

address_of : Option ℕ → ℕ
address_of none = 0
address_of (some image) = image

unfoldable pub unmap : View → Option ℕ → View
unfolding address_of
unmap v none = v
unmap v (some p) =
    if v.refs == 0
    then v
    else if leb (address_of v.image) p && ltb p (add_word (address_of v.image) v.size)
    then record v { refs = v.refs - 1 }
    else v

-- HIFITEM(-1) in 32 bits stands for no item.
unfoldable pub ptr_to_offset : View → ℕ → ℕ
unfolding address_of is_set
ptr_to_offset v p =
    if v.map_handle && is_set v.image
    then if leb (address_of v.image) p && ltb p (add_word (address_of v.image) v.view_size)
      then add_word (p - address_of v.image) v.offset
      else 0xffff_ffff
    else 0xffff_ffff
