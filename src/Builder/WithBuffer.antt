-- ===== src/Builder/WithBuffer.antt =====
-- FaissIndexBuilderWithBuffer of builder/faiss_index_builder_with_buffer.cc, the builder of an index
-- that is trained on all vectors before it takes any.
pub mod Batches
pub mod Copied
pub mod Referring
pub mod Referred
pub mod Nullable
pub mod Stale
use tenann.Prelude.{
  ℕ, zero, suc, ◌+◌, ◌*◌, ◌/◌, Bool, true, false, not, ◌||◌, Option, none, some, List, [], ◌∷◌,
  ◌++◌, ◌==◌, ltb, if◌then◌else◌, check, ◌>>◌, ◌>>=◌, get_elem?, length,
}
use tenann.Common.TypedSeqView.{TypedSliceIterator, values, size, range, for_each}
use tenann.Builder.Faiss.{FaissIndex}
use tenann.Builder.FaissIndexBuilder.{IndexBuilder, AddMethods, all_rows, write_index}
use tenann.Builder.FaissIndexBuilder as Base

module _ {Ix F : Type 0} (o : FaissIndex Ix F) (dim : ℕ) where
  -- The row ids of a batch, where there are any, behind those of a buffer.
  abbrev pub append_ids : List ℕ → Option (List ℕ) → ℕ → Option (List ℕ)
  append_ids buffer none n = some buffer
  append_ids buffer (some row_ids) n = do is ← range 0 n row_ids; some (buffer ++ is)

  -- `data_buffer_.insert` and `id_buffer_.insert` at the end.
  unfoldable pub append_batch :
      TypedSliceIterator F → Option (List ℕ) → IndexBuilder Ix F → Option (IndexBuilder Ix F)
  append_batch it row_ids b = do
    xs ← all_rows dim it
    is ← append_ids b.id_buffer row_ids (size it)
    some (record b { data_buffer = b.data_buffer ++ xs; id_buffer = is })

  -- The ids of the first batch, when the second comes with ids.
  abbrev pub first_ids : Option (List ℕ) → Option (List ℕ) → List ℕ → ℕ → Option (List ℕ)
  first_ids row_ids none buffer n = some buffer
  first_ids none (some _) buffer n = none
  first_ids (some first) (some _) buffer n = range 0 n first

  -- The buffers get the batch that was only referred to, before the new one.
  unfoldable pub copy_first :
      TypedSliceIterator F → Option (List ℕ) → IndexBuilder Ix F → Option (IndexBuilder Ix F)
  copy_first first row_ids b = do
    xs ← all_rows dim first
    is ← first_ids b.row_id row_ids b.id_buffer (size first)
    some (record b { data_buffer = xs; id_buffer = is })

  abbrev pub keep_ids : Option (List ℕ) → Option (List ℕ) → Option (List ℕ)
  keep_ids old none = old
  keep_ids old (some row_ids) = some row_ids

  unfoldable pub merge :
      TypedSliceIterator F → Option (List ℕ) → IndexBuilder Ix F → Option (IndexBuilder Ix F)
  unfolding append_batch copy_first
  merge it row_ids b =
      let refer : Option (IndexBuilder Ix F) = elim b.input_row_iterator [
        | none ↦
            some (record b { input_row_iterator = some it; row_id = keep_ids b.row_id row_ids })
        | some first ↦
            let copied = (do b' ← copy_first first row_ids b; append_batch it row_ids b') in
            if length b.data_buffer == 0 then copied else append_batch it row_ids b
      ] in
      if not b.inputs_live_longer_than_this then append_batch it row_ids b else refer

  unfoldable pub add_raw : TypedSliceIterator F → IndexBuilder Ix F → Option (IndexBuilder Ix F)
  unfolding merge
  add_raw it b = do
    ix ← b.index_ref
    let direct = (do
      xs ← all_rows dim it
      ix' ← o.add (size it) xs ix
      some (record b { index_ref = some ix' }))
    let later = merge it none b
    if o.is_trained ix then direct else later

  unfoldable pub add_with_row_ids :
      TypedSliceIterator F → List ℕ → IndexBuilder Ix F → Option (IndexBuilder Ix F)
  unfolding merge
  add_with_row_ids it row_ids b = do
    ix ← b.index_ref
    let direct = Base.add_with_row_ids o dim it row_ids b
    let later = merge it (some row_ids) b
    if o.is_trained ix then direct else later

  -- One round of the loop over the rows: a row that is not null goes into the buffers.
  abbrev pub buffer_single :
      TypedSliceIterator F
      → List ℕ
      → List ℕ
      → ℕ
      → ℕ
      → ℕ
      → IndexBuilder Ix F
      → Option (IndexBuilder Ix F)
  buffer_single it row_ids null_flags i p len b = do
    flag ← get_elem? null_flags i
    let single = (do
      xs ← range p len (values it)
      id ← get_elem? row_ids i
      some (record b { data_buffer = b.data_buffer ++ xs; id_buffer = b.id_buffer ++ id ∷ [] }))
    if flag == 0 then single else some b

  unfoldable pub add_with_row_ids_and_null_flags :
      TypedSliceIterator F → List ℕ → List ℕ → IndexBuilder Ix F → Option (IndexBuilder Ix F)
  add_with_row_ids_and_null_flags it row_ids null_flags b =
      for_each (buffer_single it row_ids null_flags) it b

  unfoldable pub methods : AddMethods Ix F
  unfolding add_raw add_with_row_ids add_with_row_ids_and_null_flags
  methods = record {
    add_raw = add_raw;
    add_with_row_ids = add_with_row_ids;
    add_with_row_ids_and_null_flags = add_with_row_ids_and_null_flags;
  }

  -- The training and the addition of `n` vectors, with ids if there are any.
  unfoldable pub train_and_add : ℕ → List F → Option (List ℕ) → Ix → Option Ix
  train_and_add n xs none ix = do ix' ← o.train n xs ix; o.add n xs ix'
  train_and_add n xs (some row_ids) ix = do
    ix' ← o.train n xs ix
    is ← range 0 n row_ids
    o.add_with_ids n xs is ix'

  -- What `Flush` does with an index that is not trained.
  unfoldable pub build : IndexBuilder Ix F → Ix → Option (IndexBuilder Ix F)
  unfolding train_and_add
  build b ix =
      let row_id = if ltb 0 (length b.id_buffer) then some b.id_buffer else b.row_id in
      let buffered = train_and_add (length b.data_buffer / dim) b.data_buffer row_id ix in
      let referred = (do
        it ← b.input_row_iterator
        xs ← all_rows dim it
        train_and_add (size it) xs row_id ix) in
      do
        ix' ← if ltb 0 (length b.data_buffer) then buffered else referred
        some (record b { row_id = row_id; index_ref = some ix' })

  unfoldable pub flush : IndexBuilder Ix F → Option (IndexBuilder Ix F)
  unfolding build
  flush b = do
    check b.is_opened
    ix ← b.index_ref
    b' ← if not (o.is_trained ix) then build b ix else some b
    ix' ← b'.index_ref
    some (write_index ix' b')
