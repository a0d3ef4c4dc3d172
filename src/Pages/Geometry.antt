-- ===== src/Pages/Geometry.antt =====
-- The bounds of forChannel.
use rail.Prelude.{
  ℕ, ◌+◌, ◌-◌, ◌/◌, ◌%◌, ◌^◌, ◌≤◌, ◌<◌, ◌≡◌, min, max, ltb, Bool-cases, inl, inr, arith,
}
use rail.Pages.{for_channel}

-- With two pages or more, the window is not zero and no wider than the channel allows, the reads
-- ahead are not none and no more than the ring takes, both fit in the pool together, and the writes
-- are no more than the reads.
pub for_channel-fits :
    (pages in_flight depth : ℕ)
    → 1 < pages
    → pages < 2 ^ 64
    → 0 < in_flight
    → 0 < depth
    → (0 < (for_channel pages in_flight depth).window)
      × ((for_channel pages in_flight depth).window ≤ in_flight)
      × (0 < (for_channel pages in_flight depth).read_ahead)
      × ((for_channel pages in_flight depth).read_ahead ≤ depth)
      × ((for_channel pages in_flight depth).window + (for_channel pages in_flight depth).read_ahead
          ≤ pages)
      × ((for_channel pages in_flight depth).write_depth
          ≤ (for_channel pages in_flight depth).read_ahead)
unfolding for_channel
for_channel-fits pages in_flight depth two word some deep =
    let last : (pages + (2 ^ 64 - 1)) % 2 ^ 64 ≡ pages - 1 = omega (arith, two, word) in
    rw last
      (elim (Bool-cases (ltb (max 1 (min (min (pages / 2) (pages - 1)) in_flight) + 1) pages)) [
        | inl more ↦
            let wide : max 1 (min (min (pages / 2) (pages - 1)) in_flight) + 1 < pages =
              ground (arith, more) in
            rw more (
              omega (arith, some),
              omega (arith, some),
              omega arith,
              omega (arith, deep),
              omega (arith, wide),
              omega arith,
            )
        | inr few ↦ rw few (
          omega (arith, some),
          omega (arith, two, some),
          omega arith,
          omega (arith, deep),
          omega (arith, two),
          omega arith,
        )
      ])
