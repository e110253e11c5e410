-- ===== src/FileView/Window.antt =====
-- Which bytes View::Map gives out.
use syncme.Prelude.{
  ℕ, ◌+◌, ◌-◌, ◌*◌, ◌/◌, ◌%◌, ◌^◌, ◌≤◌, ◌<◌, ◌≡◌, refl, true, false, none, some, arith, add_word,
  word_mod, min, Bool-cases, ◌⊎◌, inl, inr, Option-cases, dec_lt, dec_le,
}
use syncme.FileView.{View, System, map_view, in_view, map_in, count_ref}

-- The start of a view: the last multiple of the granularity.
abbrev pub window_start : ℕ → ℕ → ℕ
window_start granularity offset = (offset / granularity) * granularity

-- What Map keeps: a view lies in the file.
pub record IsValid (v : View) : Type 0 where
  pub sized : v.size < 2 ^ 63
  pub inside : v.offset + v.view_size ≤ v.size

-- The system mapped as much as ViewSize says.
abbrev pub IsWhole : View → Type 0
IsWhole v = v.mapped_size ≡ v.view_size

pub start_bounds :
    (granularity offset : ℕ) → window_start granularity offset + offset % granularity ≡ offset
start_bounds granularity offset = grind arith

module _ (sys : System) (granularity : ℕ) (v : View) (offset n : ℕ) where
  -- The range passes the checks of Map.
  pub record IsChecked : Type 0 where
    pub handle : v.map_handle ≡ true
    pub nonempty : 0 < n
    pub within : offset + n ≤ v.size
    pub small : n ≤ v.maximal_size

  pub map_view-checked :
      IsValid v
      → IsChecked
      → map_view sys granularity v offset n
        ≡ count_ref (map_in sys granularity v offset (in_view v offset n))
  unfolding map_view
  map_view-checked v' c = ground arith

  pub map_view-refused :
      IsValid v
      → n < word_mod
      → (v.map_handle ≡ false) ⊎ (n ≡ 0) ⊎ (v.size < offset + n) ⊎ (v.maximal_size < n)
      → map_view sys granularity v offset n ≡ (none, v)
  unfolding map_view
  map_view-refused v' w h = ground arith

  pub checks :
      IsChecked ⊎ ((v.map_handle ≡ false) ⊎ (n ≡ 0) ⊎ (v.size < offset + n) ⊎ (v.maximal_size < n))
  checks = elim (Bool-cases v.map_handle) [
    | inr h ↦ inr (inl h)
    | inl h ↦ elim (dec_lt 0 n) [
      | no z ↦ inr (inr (inl (omega arith)))
      | yes k ↦ elim (dec_le (offset + n) v.size) [
        | no out ↦ inr (inr (inr (inl (omega arith))))
        | yes within ↦ elim (dec_le n v.maximal_size) [
          | no large ↦ inr (inr (inr (inr (omega arith))))
          | yes small ↦ inl (record { handle = h; nonempty = k; within = within; small = small })
        ]
      ]
    ]
  ]

  -- What a successful Map leaves behind.
  pub record Gives (image p : ℕ) (v' : View) : Type 0 where
    pub mapped : v'.image ≡ some image
    pub at : p ≡ add_word image (offset - v'.offset)
    pub before : v'.offset ≤ offset
    pub valid : IsValid v'
    pub counted : v'.refs ≡ v.refs + 1
    pub within : offset + n ≤ v'.size
    pub inside : offset + n ≤ v'.offset + v'.mapped_size
    pub whole : IsWhole v'

  abbrev pub kept : View
  kept = record v { refs = v.refs + 1 }

  pub in_view-Gives :
      (p : ℕ)
      → IsValid v
      → IsChecked
      → IsWhole v
      → in_view v offset n ≡ some p
      → (image : ℕ) × Gives image p kept
  unfolding in_view
  in_view-Gives p v' c whole e = elim (Option-cases v.image) [
    | inl none_mapped ↦ absurd (ground arith)
    | inr (image, h) ↦ (
      image,
      record {
        mapped = h;
        at = ground arith;
        before = ground arith;
        valid = record { sized = v'.sized; inside = v'.inside };
        counted = refl;
        within = c.within;
        inside = ground arith;
        whole = whole;
      },
    )
  ]

  abbrev pub moved : ℕ → View
  moved image = record v {
    offset = window_start granularity offset;
    view_size = min (v.size - window_start granularity offset) v.maximal_size;
    image = some image;
    refs = v.refs + 1;
    mapped_size = min (v.size - window_start granularity offset) v.maximal_size % 2 ^ 32;
  }

  pub moved-Gives :
      (image : ℕ)
      → IsValid v
      → IsChecked
      → v.maximal_size < 2 ^ 32
      → offset % granularity + n ≤ v.maximal_size
      → Gives image (add_word image (offset - window_start granularity offset)) (moved image)
  moved-Gives image v' c m h = record {
    mapped = refl;
    at = refl;
    before = omega (arith, start_bounds granularity offset);
    valid = record {
      sized = v'.sized;
      inside = omega (arith, start_bounds granularity offset, c.within);
    };
    counted = refl;
    within = c.within;
    inside = omega (arith, start_bounds granularity offset, c.within, h, m);
    whole = omega (arith, m);
  }
