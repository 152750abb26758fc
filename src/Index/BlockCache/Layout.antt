-- ===== src/Index/BlockCache/Layout.antt =====
-- The inverted lists lie one behind the other.
use tenann.Prelude.{
  ℕ, ◌+◌, ◌-◌, ◌*◌, ◌%◌, ◌^◌, ◌<◌, ◌≡◌, refl, List, [], ◌∷◌, arith, map, subst, sym, ap,
}
use tenann.Index.BlockCache.{OneList, block_size, u64, aligned_down, layout}

-- The bytes of lists of the given sizes.
abbrev pub total_bytes : ℕ → List ℕ → ℕ
total_bytes one_entry_size [] = 0
total_bytes one_entry_size (n ∷ sizes) = n * one_entry_size + total_bytes one_entry_size sizes

-- The lists fill the file from `o` to `end`: each begins where the one before ends.
abbrev pub Tiles : ℕ → ℕ → List OneList → ℕ → Type 0
Tiles one_entry_size o [] end = o ≡ end
Tiles one_entry_size o (l ∷ lists) end =
    (l.offset ≡ o)
    × (l.capacity ≡ l.size)
    × Tiles one_entry_size (o + l.size * one_entry_size) lists end

abbrev pub offset_in_block : OneList → ℕ
offset_in_block l = l.offset % block_size

-- What follows of a layout that is computed from `o'` and stands at `o`.
abbrev TilesFrom : ℕ → List ℕ → ℕ → ℕ → Type 0
TilesFrom one_entry_size sizes o o' =
    let (lists, differences, end) = layout one_entry_size sizes o' in
    Tiles one_entry_size o lists end
    × (map (λ l. l.size) lists ≡ sizes)
    × (differences ≡ map offset_in_block lists)
    × (end ≡ o + total_bytes one_entry_size sizes)

place : (o : ℕ) → o < 2 ^ 64 → u64 (o + 2 ^ 64 - aligned_down o) ≡ o % block_size
place o small = omega (arith, small)

-- Lists that end below 2 ^ 64 fill the file from the start offset on without gaps and in order, with
-- the sizes that were read; the differences are the positions of their offsets in a block.
pub layout-Tiles :
    (one_entry_size : ℕ) (sizes : List ℕ) (o : ℕ)
    → o + total_bytes one_entry_size sizes < 2 ^ 64
    → let (lists, differences, end) = layout one_entry_size sizes o in
      Tiles one_entry_size o lists end
      × (map (λ l. l.size) lists ≡ sizes)
      × (differences ≡ map offset_in_block lists)
      × (end ≡ o + total_bytes one_entry_size sizes)
unfolding layout
layout-Tiles one_entry_size [] o small = (refl, refl, refl, omega arith)
layout-Tiles one_entry_size (n ∷ sizes) o small =
    let next : u64 (o + u64 (n * one_entry_size)) ≡ o + n * one_entry_size = omega (arith, small) in
    let (tiles, sizes_kept, places, ends) =
      subst (TilesFrom one_entry_size sizes (o + n * one_entry_size)) (sym next)
        (layout-Tiles one_entry_size sizes (o + n * one_entry_size) (omega (arith, small))) in
    (
      (refl, refl, tiles),
      ap (λ r. n ∷ r) sizes_kept,
      ground (arith, places, place o (omega (arith, small))),
      omega (arith, ends),
    )
