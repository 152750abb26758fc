-- ===== src/Store/CacheKey.antt =====
-- CacheKey of store/lru_cache.h and lru_cache.cc: a slice of bytes, read as the list of its bytes.
pub mod Laws
use Prim.Native.Nat.{compare as compare_ℕ, Ordering, min}
use tenann.Prelude.{
  ℕ, zero, suc, ◌+◌, ◌*◌, ◌/◌, ◌%◌, ◌^◌, bit_xor, Bool, true, false, ◌&&◌, not, List, [], ◌∷◌,
  length, drop, ◌==◌, ltb, leb, if◌then◌else◌, Option, check, ◌>>◌, some,
}

abbrev pub CacheKey : Type 0
CacheKey = List ℕ

-- `memcmp` of the first `n` bytes, as a sign.
unfoldable pub memcmp : ℕ → CacheKey → CacheKey → Ordering
memcmp (suc n) (x ∷ a) (y ∷ b) = elim (compare_ℕ x y) [
  | Ordering.lt ↦ Ordering.lt
  | Ordering.eq ↦ memcmp n a b
  | Ordering.gt ↦ Ordering.gt
]
memcmp _ _ _ = Ordering.eq

abbrev pub is_eq : Ordering → Bool
is_eq Ordering.eq = true
is_eq _ = false

abbrev pub size : CacheKey → ℕ
size = length

-- `operator==` and `operator!=`.
unfoldable pub key_eq : CacheKey → CacheKey → Bool
key_eq a b = size a == size b && is_eq (memcmp (size a) a b)

key_ne : CacheKey → CacheKey → Bool
unfolding key_eq
key_ne a b = not (key_eq a b)

unfoldable pub compare : CacheKey → CacheKey → Ordering
compare a b =
    let min_len = if ltb (size a) (size b) then size a else size b in
    elim (memcmp min_len a b) [
      | Ordering.lt ↦ Ordering.lt
      | Ordering.gt ↦ Ordering.gt
      | Ordering.eq ↦
          if ltb (size a) (size b)
          then Ordering.lt
          else if ltb (size b) (size a)
          then Ordering.gt
          else Ordering.eq
    ]

unfoldable pub starts_with : CacheKey → CacheKey → Bool
starts_with a x = leb (size x) (size a) && is_eq (memcmp (size x) a x)

-- The assertion `n <= size()` is checked.
unfoldable pub remove_prefix : ℕ → CacheKey → Option CacheKey
remove_prefix n a = do check (leb n (size a)); some (drop n a)

abbrev pub u32_mod : ℕ
u32_mod = 2 ^ 32

-- uint32_t arithmetic.
abbrev add32 : ℕ → ℕ → ℕ
add32 a b = (a + b) % u32_mod

abbrev mul32 : ℕ → ℕ → ℕ
mul32 a b = a * b % u32_mod

abbrev xor32 : ℕ → ℕ → ℕ
xor32 a b = bit_xor a b % u32_mod

abbrev hash_m : ℕ
hash_m = 0xc6a4a793

-- Four bytes, the least significant first.
unfoldable pub decode_fixed32 : ℕ → ℕ → ℕ → ℕ → ℕ
decode_fixed32 a b c d = a + b * 2 ^ 8 + c * 2 ^ 16 + d * 2 ^ 24

-- One round of the loop over four bytes.
unfoldable pub hash_word : ℕ → ℕ → ℕ
hash_word h w = let h' = mul32 (add32 h w) hash_m in xor32 h' (h' / 2 ^ 16)

-- The last step of the switch.
unfoldable pub hash_last : ℕ → ℕ → ℕ
hash_last h a = let h' = mul32 (add32 h a) hash_m in xor32 h' (h' / 2 ^ 24)

-- The loop, then the switch on the bytes that remain.
unfoldable pub hash_bytes : ℕ → List ℕ → ℕ
unfolding decode_fixed32 hash_word hash_last
hash_bytes h (a ∷ b ∷ c ∷ d ∷ rest) = hash_bytes (hash_word h (decode_fixed32 a b c d)) rest
hash_bytes h (a ∷ b ∷ c ∷ []) = hash_last (add32 (add32 h (c * 2 ^ 16)) (b * 2 ^ 8)) a
hash_bytes h (a ∷ b ∷ []) = hash_last (add32 h (b * 2 ^ 8)) a
hash_bytes h (a ∷ []) = hash_last h a
hash_bytes h [] = h

unfoldable pub hash : CacheKey → ℕ → ℕ
unfolding hash_bytes
hash key seed = hash_bytes (bit_xor seed (size key * hash_m % 2 ^ 64) % u32_mod) key
