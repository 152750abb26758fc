-- ===== src/Index/BlockCache/Blocks.antt =====
-- The blocks that are read hold the list.
use tenann.Prelude.{
  ℕ, zero, suc, ◌+◌, ◌-◌, ◌*◌, ◌%◌, ◌^◌, ◌<◌, ◌≤◌, ◌≡◌, refl, ap, ◌∙◌, some, List, [], ◌∷◌, arith,
  length, drop, ltb, if◌then◌else◌,
}
use tenann.Index.BlockCache.{
  OneList, BlockCacheInvertedLists, block_size, u64, aligned_down, aligned_up, take, pread,
  read_blocks,
}

module _ {A : Type 0} where
  length-drop : (n : ℕ) (xs : List A) → length (drop n xs) ≡ length xs - n
  length-drop zero xs = omega arith
  length-drop (suc n) [] = omega arith
  length-drop (suc n) (x ∷ xs) = omega (arith, length-drop n xs)

  length-take :
      (n : ℕ) (xs : List A) → length (take n xs) ≡ (if ltb n (length xs) then n else length xs)
  length-take zero xs = ground arith
  length-take (suc n) [] = ground arith
  length-take (suc n) (x ∷ xs) = ground (arith, length-take n xs)

  abbrev nothing : List A
  nothing = []

  drop_nil : (d : ℕ) → drop d [] ≡ nothing
  drop_nil zero = refl
  drop_nil (suc d) = refl

  drop-drop : (a d c : ℕ) (xs : List A) → c ≡ a + d → drop d (drop a xs) ≡ drop c xs
  drop-drop zero d c xs e = ground (arith, e)
  drop-drop (suc a) d zero xs e = absurd (omega (arith, e))
  drop-drop (suc a) d (suc c) [] e = ground (arith, drop_nil d)
  drop-drop (suc a) d (suc c) (x ∷ xs) e = drop-drop a d c xs (omega (arith, e))

  -- A part of the first elements.
  take-drop-take :
      (n d m : ℕ) (xs : List A) → d + n ≤ m → take n (drop d (take m xs)) ≡ take n (drop d xs)
  take-drop-take zero d m xs h = refl
  take-drop-take (suc n) zero zero xs h = absurd (omega (arith, h))
  take-drop-take (suc n) zero (suc m) [] h = refl
  take-drop-take (suc n) zero (suc m) (x ∷ xs) h =
      ap (λ r. x ∷ r) (take-drop-take n zero m xs (omega (arith, h)))
  take-drop-take (suc n) (suc d) zero xs h = absurd (omega (arith, h))
  take-drop-take (suc n) (suc d) (suc m) [] h = refl
  take-drop-take (suc n) (suc d) (suc m) (x ∷ xs) h =
      take-drop-take (suc n) d m xs (omega (arith, h))

  -- A part that is in the elements.
  length-take-drop : (n d : ℕ) (xs : List A) → d + n ≤ length xs → length (take n (drop d xs)) ≡ n
  length-take-drop n d xs h = ground (arith, h, length-take n (drop d xs), length-drop d xs)

-- For a list that the file has, the blocks are read, as many bytes of them as the file has. Behind the
-- place of the list in the first block they hold its bytes, all of them.
pub read_blocks-list :
    (file : List ℕ) (l : BlockCacheInvertedLists) (one : OneList)
    → l.totsize ≡ length file
    → length file < 2 ^ 63
    → one.offset + one.size * l.one_entry_size ≤ length file
    → let difference = one.offset % block_size in
      let n = one.size * l.one_entry_size in
      (bytes : List ℕ) × (read_blocks file l one difference ≡ some bytes)
      × (pread bytes n difference ≡ pread file n one.offset)
      × (length (pread bytes n difference) ≡ n)
unfolding read_blocks
read_blocks-list file l one whole small inside =
    let difference = one.offset % block_size in
    let n = one.size * l.one_entry_size in
    let start = aligned_down one.offset in
    let m = aligned_up (difference + u64 n) in
    let bytes = pread file m start in
    let fits : difference + n ≤ m = omega (arith, small, inside) in
    let begin : one.offset ≡ start + difference = omega arith in
    let same : pread bytes n difference ≡ pread file n one.offset =
      take-drop-take n difference m (drop start file) fits
      ∙ ap (take n) (drop-drop start difference one.offset file begin) in
    (
      bytes,
      ground (arith, whole, small, inside, length-take m (drop start file), length-drop start file),
      same,
      ap length same ∙ length-take-drop n one.offset file inside,
    )
