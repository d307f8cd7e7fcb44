-- ===== src/Codepoints.antt =====
-- `sys::codepoint_iter` and `sys::codepoint_view` (sys.Text/CodepointIterator.h), over any
-- character type.
pub mod Views
use libcxxext.Prelude.{ℕ, zero, suc, ◌+◌, Bool, true, false, List, [], ◌∷◌, ◌++◌}
use libcxxext.Prelude.{ltb, ◌==◌, if◌then◌else◌, length, drop}
use libcxxext.Char.{CodepointData, found}
use libcxxext.Char.Encoding.{Encoding}

-- `cur` and `end` delimit the units that are left; `cp_size` caches the size of the code point at
-- `cur`, or is 0.
pub record CodepointIter : Type 0 where
  pub left : List ℕ
  pub cp_size : ℕ

abbrev pub iter_at : List ℕ → CodepointIter
iter_at us = record { left = us; cp_size = 0 }

module _ (E : Encoding) where
  -- `ch::read_codepoint(std::span(cur, end), unsafe)`, which `cur == end` leaves undefined.
  abbrev pub read_span : List ℕ → CodepointData
  read_span [] = found 0 0
  read_span (b ∷ rest) = E.read b rest

  -- `operator*` returns the code point, and remembers its size.
  unfoldable pub deref : CodepointIter → ℕ × CodepointIter
  deref it = let d = read_span it.left in (d.c, record it { cp_size = d.size_bytes })

  unfoldable pub next : CodepointIter → CodepointIter
  next it =
      let size = if it.cp_size == 0 then (read_span it.left).size_bytes else it.cp_size in
      iter_at (drop size it.left)

  -- `for (const char32_t c : codepoint_view(...))`: the code points from `it` up to `end`, within
  -- `fuel` rounds.
  unfoldable pub collect : ℕ → CodepointIter → List ℕ
  collect zero it = []
  collect (suc fuel) it =
      let (c, here) = deref it in
      let rest = collect fuel (next here) in if length it.left == 0 then [] else c ∷ rest

  -- A view of a buffer: at least one unit goes in each round.
  unfoldable pub view : List ℕ → List ℕ
  view us = collect (length us) (iter_at us)

  -- The loops that append `write_codepoint` of each code point to a string.
  unfoldable pub encode : List ℕ → List ℕ
  encode [] = []
  encode (c ∷ cs) = E.write c ++ encode cs
