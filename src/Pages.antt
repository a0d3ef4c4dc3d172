-- ===== src/Pages.antt =====
-- The page streams of src/stream/page-stream.cc and include/rail/stream/page-stream.h: a range of
-- bytes goes from a sender to a receiver in pages, each under a tag that both make of where it
-- starts.
pub mod Cutting
pub mod Sender
pub mod Receiver
pub mod Filling
pub mod Sent
pub mod Posted
pub mod Agreed
pub mod Geometry
use rail.Prelude.{ℕ, ◌+◌, ◌-◌, ◌/◌, ◌%◌, ◌^◌, min, max, ltb, if◌then◌else◌}

pub record StreamGeometry : Type 0 where
  pub window : ℕ
  pub read_ahead : ℕ
  pub write_depth : ℕ

-- StreamGeometry::forChannel, of a pool with so many pages, the pages that the channel may have in
-- flight, and the depth of the ring. Pages - 1 wraps where there are none.
unfoldable pub for_channel : ℕ → ℕ → ℕ → StreamGeometry
for_channel pages in_flight depth =
    let window = max 1 (min (min (pages / 2) ((pages + (2 ^ 64 - 1)) % 2 ^ 64)) in_flight) in
    let read_ahead = max 1 (min (if ltb (window + 1) pages then pages - window - 1 else 1) depth) in
    record { window = window; read_ahead = read_ahead; write_depth = min 2 read_ahead }

-- TagBase + Key, of uint64_t.
abbrev pub tag_of : ℕ → ℕ → ℕ
tag_of tag_base key = (tag_base + key) % 2 ^ 64

-- void
abbrev pub Void : Type 0
Void = Unit
