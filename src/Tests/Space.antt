-- ===== src/Tests/Space.antt =====
-- The address space: instances.
use rail.Prelude.{
  ℕ, zero, suc, ◌+◌, ◌*◌, ◌≤◌, ◌<◌, ◌≡◌, ◌⊎◌, refl, ◌-◌, ltb, if◌then◌else◌, Option, none, some, [],
  ◌∷◌, length, arith,
}
use rail.AddressSpace.{registered_page, AddressSpace, Mapping, map_at, capacity}
use rail.AddressSpace.Mapped.{map_at_lem}

-- A memory of runs of 4096 bytes: how many it has left, and how many are out. It hands each out
-- under a number.
abbrev hand_out : ℕ × ℕ → ℕ → (ℕ × ℕ) × Option ℕ
hand_out (zero, out) bytes = ((zero, out), none)
hand_out (suc left, out) bytes =
    if ltb 4096 bytes then ((suc left, out), none) else ((left, out + 1), some left)

abbrev take_back : ℕ × ℕ → ℕ → ℕ × ℕ
take_back (left, out) run = (left + 1, out - 1)

abbrev page_of : ℕ → ℕ
page_of run = 4096

abbrev how_many : ℕ × ℕ → ℕ
how_many (left, out) = out

abbrev three_pages : AddressSpace ℕ
three_pages = record {
  held = 2 ∷ 1 ∷ 0 ∷ [];
  heap = 0;
  views = registered_page 2 0 16 ∷ registered_page 1 0 16 ∷ registered_page 0 0 16 ∷ [];
  page_bytes = 16;
  base = 100;
}

map_at_lem_example :
    ((map_at three_pages 140 20 ≡ none) × ((140 < 100) ⊎ (100 + capacity three_pages ≤ 140)))
    ⊎ ((m : Mapping) × (map_at three_pages 140 20 ≡ some m)
        × (m.page < 3)
        × (100 + (m.page * 16 + m.offset) ≡ 140)
        × (m.offset + m.length ≤ 16)
        × (m.length ≤ 20))
map_at_lem_example = map_at_lem three_pages 140 20 (omega arith)

within-page : map_at three_pages 140 20 ≡ some (record { page = 2; offset = 8; length = 8 })
unfolding map_at
within-page = refl
