-- ===== src/Store/HandleTable/Moves.antt =====
-- `_resize` builds a well-placed array that holds every entry of the old one.
use tenann.Prelude.Mask.{bit_and-lt}
use tenann.Prelude.{ℕ, suc, ◌+◌, ◌≤◌, ◌<◌, ◌≡◌, ◌∙◌, none, List, [], ◌∷◌, length, arith}
use tenann.Store.CacheKey.{CacheKey}
use tenann.Store.HandleTable.{
  Node, Chain, index, bucket, chain_find, push, push_chain, push_list, count_list,
}
use tenann.Store.HandleTable.Chain.{Uniq, AtIndex, same_sym}
use tenann.Store.HandleTable.Placed.{Placed, Placed-get_or, Placed-set, count_list-set}
use tenann.Store.HandleTable.Rehash.{
  find_in, find_in-push, length-push, length-push_chain, fresh-push_chain,
}

module _ (len : ℕ) (pos : 0 < len) where
  -- None of the nodes is in the array yet.
  abbrev Fresh : Chain → List Chain → Type 0
  Fresh [] acc = Unit {0}
  Fresh (n ∷ ns) acc = (find_in n.key n.hash len acc ≡ none) × Fresh ns acc

  Fresh-push :
      (n : Node) (ns : Chain) (acc : List Chain)
      → length acc ≡ len
      → chain_find n.key n.hash ns ≡ none
      → Fresh ns acc
      → Fresh ns (push len n acc)
  unfolding chain_find
  Fresh-push n [] acc sized other f = tt
  Fresh-push n (m ∷ ns) acc sized other f = ground (
    arith,
    Fresh-push n ns acc sized,
    find_in-push m.key m.hash len n acc pos sized,
    same_sym m.key m.hash n.key n.hash,
  )

  Fresh-of_absent :
      (old i : ℕ) (ns : Chain) (acc : List Chain)
      → AtIndex old i ns
      → ((k : CacheKey) (h : ℕ) → index h old ≡ i → find_in k h len acc ≡ none)
      → Fresh ns acc
  Fresh-of_absent old i [] acc a absent = tt
  Fresh-of_absent old i (n ∷ ns) acc a absent =
      (absent n.key n.hash a.0, Fresh-of_absent old i ns acc a.1 absent)

  push-Placed :
      (n : Node) (acc : List Chain)
      → find_in n.key n.hash len acc ≡ none
      → Placed len 0 acc
      → Placed len 0 (push len n acc)
  unfolding push
  push-Placed n acc new p =
      let (a, u) = Placed-get_or len 0 (index n.hash len) acc p in
      Placed-set len 0 (index n.hash len) (n ∷ bucket n.hash len acc) acc p (omega arith, a)
        (new, u)

  count_list-push :
      (n : Node) (acc : List Chain)
      → length acc ≡ len
      → count_list (push len n acc) ≡ suc (count_list acc)
  unfolding push
  count_list-push n acc sized = omega (
    arith,
    count_list-set acc (index n.hash len) (n ∷ bucket n.hash len acc)
        (omega (arith, bit_and-lt n.hash len pos)),
  )

  push_chain-Placed :
      (ns : Chain) (acc : List Chain)
      → length acc ≡ len
      → Uniq ns
      → Fresh ns acc
      → Placed len 0 acc
      → Placed len 0 (push_chain len ns acc)
  unfolding push_chain
  push_chain-Placed [] acc sized u f p = p
  push_chain-Placed (n ∷ ns) acc sized u f p =
      push_chain-Placed ns (push len n acc) (length-push len n acc ∙ sized) u.1
        (Fresh-push n ns acc sized u.0 f.1) (push-Placed n acc f.0 p)

  count_list-push_chain :
      (ns : Chain) (acc : List Chain)
      → length acc ≡ len
      → count_list (push_chain len ns acc) ≡ length ns + count_list acc
  unfolding push_chain
  count_list-push_chain [] acc sized = omega arith
  count_list-push_chain (n ∷ ns) acc sized = omega (
    arith,
    count_list-push_chain ns (push len n acc) (length-push len n acc ∙ sized),
    count_list-push n acc sized,
  )

  pub length-push_list :
      (cs acc : List Chain) → length acc ≡ len → length (push_list len cs acc) ≡ len
  unfolding push_list
  length-push_list [] acc sized = sized
  length-push_list (c ∷ cs) acc sized =
      length-push_list cs (push_chain len c acc) (length-push_chain len c acc ∙ sized)

  pub count_list-push_list :
      (cs acc : List Chain)
      → length acc ≡ len
      → count_list (push_list len cs acc) ≡ count_list cs + count_list acc
  unfolding push_list count_list
  count_list-push_list [] acc sized = omega arith
  count_list-push_list (c ∷ cs) acc sized = omega (
    arith,
    count_list-push_list cs (push_chain len c acc) (length-push_chain len c acc ∙ sized),
    count_list-push_chain c acc sized,
  )

  pub push_list-Placed :
      (old i : ℕ) (cs acc : List Chain)
      → length acc ≡ len
      → Placed old i cs
      → ((k : CacheKey) (h : ℕ) → i ≤ index h old → find_in k h len acc ≡ none)
      → Placed len 0 acc
      → Placed len 0 (push_list len cs acc)
  unfolding push_list
  push_list-Placed old i [] acc sized placed fresh p = p
  push_list-Placed old i (c ∷ cs) acc sized placed fresh p =
      push_list-Placed old (suc i) cs (push_chain len c acc) (length-push_chain len c acc ∙ sized)
        placed.2
        (λ k h. fresh-push_chain k h old len i c acc pos sized placed.0 placed.1 (fresh k h))
        (push_chain-Placed c acc sized placed.1
          (Fresh-of_absent old i c acc placed.0 (λ k h e. fresh k h (omega arith))) p)
