-- ===== src/FileView/Range.antt =====
-- When the bytes that View::Map gives out lie in the view, and when they do not.
use syncme.Prelude.{
  ℕ, ◌+◌, ◌-◌, ◌%◌, ◌^◌, ◌≤◌, ◌<◌, ◌≡◌, ◌≢◌, refl, Bool, true, Option, none, some, arith, add_word,
  word_mod, min, ◌⊎◌, inl, inr, Option-cases, ℕ_discrete,
}
use native.Mathlib.Nat.{mod-lt}
use syncme.FileView.{View, System, map_view, in_view, map_in, count_ref, round_up, open_view, unmap}
use syncme.FileView.Window.{
  IsValid, IsWhole, IsChecked, window_start, start_bounds, map_view-checked, map_view-refused,
  checks, Gives, in_view-Gives, kept, moved, moved-Gives,
}

module _ (sys : System) (granularity : ℕ) (v : View) (offset n : ℕ) where
  map_in-cached :
      (p : ℕ)
      → count_ref (map_in sys granularity v offset (some p))
        ≡ (some p, kept sys granularity v offset n)
  unfolding map_in count_ref
  map_in-cached p = refl

  map_in-held : v.refs ≢ 0 → count_ref (map_in sys granularity v offset none) ≡ (none, v)
  unfolding map_in count_ref
  map_in-held h = ground arith

  -- The size of a new view, as the system gets it.
  abbrev asked : ℕ
  asked = min (v.size - window_start granularity offset) v.maximal_size % 2 ^ 32

  map_in-moved :
      (image : ℕ)
      → v.refs ≡ 0
      → sys.map_view_of_file (window_start granularity offset) asked ≡ some image
      → count_ref (map_in sys granularity v offset none) ≡ (
        some (add_word image (offset - window_start granularity offset)),
        moved sys granularity v offset n image,
      )
  unfolding map_in count_ref
  map_in-moved image h e = ground arith

  map_in-failed :
      v.refs ≡ 0
      → sys.map_view_of_file (window_start granularity offset) asked ≡ none
      → (count_ref (map_in sys granularity v offset none)).0 ≡ none
  unfolding map_in count_ref
  map_in-failed h e = ground arith

  abbrev pub Given : Option ℕ × View → Type 0
  Given r = (p : ℕ) × (image : ℕ) × (r.0 ≡ some p) × Gives sys granularity v offset n image p r.1

  map_in-Given :
      (q : Option ℕ)
      → in_view v offset n ≡ q
      → IsValid v
      → IsChecked sys granularity v offset n
      → IsWhole v
      → v.maximal_size < 2 ^ 32
      → offset % granularity + n ≤ v.maximal_size
      → let r = count_ref (map_in sys granularity v offset q) in (r.0 ≡ none) ⊎ Given r
  map_in-Given (some p) e v' c whole m h =
      let (image, g) = in_view-Gives sys granularity v offset n p v' c whole e in
      rw (map_in-cached p) (inr (p, image, refl, g))
  map_in-Given none e v' c whole m h = elim (ℕ_discrete v.refs 0) [
    | no held ↦ rw (map_in-held held) (inl refl)
    | yes idle ↦
        elim (Option-cases (sys.map_view_of_file (window_start granularity offset) asked)) [
          | inl failed ↦ inl (map_in-failed idle failed)
          | inr (image, mapped) ↦
              rw (map_in-moved image idle mapped)
                (inr (_, image, refl, moved-Gives sys granularity v offset n image v' c m h))
        ]
  ]

  -- In a valid view whose windows are shorter than 2 ^ 32 bytes, as long as the range, counted from
  -- the last multiple of the granularity, is no longer than the largest window: Map gives out no
  -- pointer, or one to the right place of a mapped view, in whose part that the system was asked to
  -- map the whole range lies, and counts it.
  pub map_view-Given :
      IsValid v
      → IsWhole v
      → v.maximal_size < 2 ^ 32
      → n < word_mod
      → offset % granularity + n ≤ v.maximal_size
      → let r = map_view sys granularity v offset n in (r.0 ≡ none) ⊎ Given r
  map_view-Given v' whole m w h = elim (checks sys granularity v offset n) [
    | inr k ↦ rw (map_view-refused sys granularity v offset n v' w k) (inl refl)
    | inl c ↦
        rw (map_view-checked sys granularity v offset n v' c)
          (map_in-Given (in_view v offset n) refl v' c whole m h)
  ]

  in_view-none : v.image ≡ none → in_view v offset n ≡ none
  unfolding in_view
  in_view-none e = rw (e, in_view)

  -- Otherwise the same call succeeds all the same, although the range does not lie in the view: a
  -- range that passes the checks and whose part before the end of the largest window is too short
  -- gets a pointer whose last bytes lie behind the mapped view.
  pub map_view-beyond :
      (image : ℕ)
      → IsValid v
      → IsChecked sys granularity v offset n
      → v.image ≡ none
      → v.refs ≡ 0
      → sys.map_view_of_file (window_start granularity offset) asked ≡ some image
      → v.maximal_size < offset % granularity + n
      → let (p, v') = map_view sys granularity v offset n in
        (p ≡ some (add_word image (offset - v'.offset)))
        × (v'.image ≡ some image)
        × (v'.offset + v'.view_size < offset + n)
  map_view-beyond image v' c unmapped idle mapped h =
      rw
        (
          map_view-checked sys granularity v offset n v' c,
          in_view-none unmapped,
          map_in-moved image idle mapped,
        )
        (refl, refl, omega (arith, start_bounds granularity offset, h))

-- What Open makes of a window size that is a multiple of the granularity: one granule more.
round_up-aligned :
    (granularity max_size : ℕ)
    → 0 < granularity
    → max_size % granularity ≡ 0
    → max_size + granularity < word_mod
    → round_up granularity max_size ≡ max_size + granularity
unfolding round_up
round_up-aligned granularity max_size h e w = omega (arith, w, start_bounds granularity max_size, e)

-- A fresh view that Open accepts for windows of a multiple of the granularity, such as
-- DefaultWindowSize, gives out only ranges that lie in it, to a caller that asks for no more than
-- that size at a time. The file is shorter than 2 ^ 63 bytes, and a window with the granule more
-- shorter than 2 ^ 32.
pub map_view-aligned :
    (sys : System) (granularity : ℕ) (v w : View) (size max_size offset n : ℕ) (read_only h : Bool)
    → 0 < granularity
    → max_size % granularity ≡ 0
    → n ≤ max_size
    → max_size + granularity < 2 ^ 32
    → size < 2 ^ 63
    → v.offset ≡ 0
    → v.view_size ≡ 0
    → v.mapped_size ≡ 0
    → open_view granularity v h size read_only max_size ≡ (true, w)
    → let r = map_view sys granularity w offset n in
      (r.0 ≡ none) ⊎ Given sys granularity w offset n r
unfolding open_view
map_view-aligned sys granularity v w size max_size offset n read_only h g aligned le small fits o s
      m e =
    let (sized, at, viewed, largest, mapped) = facts in
    let rounded = round_up-aligned granularity max_size g aligned (omega arith) in
    map_view-Given sys granularity w offset n
      (record { sized = omega (arith, sized); inside = omega (arith, at, viewed, o, s) })
      (omega (arith, mapped, viewed, s, m)) (omega (arith, largest, rounded)) (omega arith)
      (omega (arith, largest, rounded, mod-lt offset g))
  where
    facts :
        (w.size ≡ size)
        × (w.offset ≡ v.offset)
        × (w.view_size ≡ v.view_size)
        × (w.maximal_size ≡ round_up granularity max_size)
        × (w.mapped_size ≡ v.mapped_size)
    facts = (ground arith, ground arith, ground arith, ground arith, ground arith)

-- Unmap of a pointer that Map gave out takes back its count and nothing else, if the image lies
-- below the end of the address space.
pub unmap-map_view :
    (sys : System) (granularity : ℕ) (v v' : View) (offset n image p : ℕ)
    → 0 < n
    → image + v'.size < word_mod
    → Gives sys granularity v offset n image p v'
    → unmap v' (some p) ≡ record v' { refs = v.refs }
unfolding unmap
unmap-map_view sys granularity v v' offset n image p h room g =
    ground (arith, g.mapped, g.at, g.before, g.counted, g.within)
