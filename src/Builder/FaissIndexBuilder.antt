-- ===== src/Builder/FaissIndexBuilder.antt =====
-- IndexBuilder of builder/index_builder.cc and FaissIndexBuilder of builder/faiss_index_builder.cc,
-- with the members of its subclass with a buffer. A result `none` is an exception or a fault; timers
-- are left out. `init_index` is `InitIndex` of the subclass, and `dim` the dimension parameter.
use tenann.Prelude.{
  ℕ, ◌*◌, Bool, true, false, not, ◌&&◌, Option, none, some, List, [], ◌∷◌, ◌++◌, ◌==◌,
  if◌then◌else◌, check, ◌>>◌, ◌>>=◌, get_elem?,
}
use tenann.Common.TypedSeqView.{
  TypedSliceIterator, array, vl_array, values, size, range, for_each, check_dimension,
}
use tenann.Builder.Faiss.{FaissIndex}

-- `written` lists the calls of `WriteIndex`. Pointers of the caller stand for what they point to.
pub record IndexBuilder (Ix F : Type 0) : Type 0 where
  pub is_opened : Bool
  pub is_closed : Bool
  pub use_custom_row_id : Bool
  pub memory_only : Bool
  pub index_save_path : List ℕ
  pub index_ref : Option Ix
  pub inputs_live_longer_than_this : Bool
  pub input_row_iterator : Option (TypedSliceIterator F)
  pub row_id : Option (List ℕ)
  pub data_buffer : List F
  pub id_buffer : List ℕ
  pub written : List (Ix × List ℕ × Bool)

-- A column is a view of vectors, or a view of another kind, or of another type than float.
pub data SeqView (F : Type 0) : Type 0 where
  vectors : TypedSliceIterator F → SeqView F
  other : SeqView F

abbrev is_some : {A : Type 0} → Option A → Bool
is_some none = false
is_some (some a) = true

-- The three methods that `AddImpl` chooses from.
pub record AddMethods (Ix F : Type 0) : Type 0 where
  pub add_raw : TypedSliceIterator F → IndexBuilder Ix F → Option (IndexBuilder Ix F)
  pub add_with_row_ids :
      TypedSliceIterator F → List ℕ → IndexBuilder Ix F → Option (IndexBuilder Ix F)
  pub add_with_row_ids_and_null_flags :
      TypedSliceIterator F → List ℕ → List ℕ → IndexBuilder Ix F → Option (IndexBuilder Ix F)

module _ {F : Type 0} where
  -- Only a view of variable length is checked.
  abbrev pub check_input : ℕ → TypedSliceIterator F → Option (Unit {0})
  check_input dim (array v) = some tt
  check_input dim (vl_array v) = check_dimension (vl_array v) dim

  -- The single column, which must be one of float vectors.
  abbrev pub single_column : List (SeqView F) → Option (TypedSliceIterator F)
  single_column (vectors it ∷ []) = some it
  single_column _ = none

  -- The vectors of a column from its first value on.
  abbrev pub all_rows : ℕ → TypedSliceIterator F → Option (List F)
  all_rows dim it = range 0 (dim * size it) (values it)

module _ {Ix F : Type 0} where
  -- The constructor.
  abbrev pub new_builder : IndexBuilder Ix F
  new_builder = record {
    is_opened = false;
    is_closed = false;
    use_custom_row_id = false;
    memory_only = false;
    index_save_path = [];
    index_ref = none;
    inputs_live_longer_than_this = false;
    input_row_iterator = none;
    row_id = none;
    data_buffer = [];
    id_buffer = [];
    written = [];
  }

  unfoldable pub enable_custom_row_id : IndexBuilder Ix F → Option (IndexBuilder Ix F)
  enable_custom_row_id b = do check (not b.is_opened); some (record b { use_custom_row_id = true })

  abbrev pub set_open_state : IndexBuilder Ix F → IndexBuilder Ix F
  set_open_state b = record b { is_opened = true; is_closed = false }

  abbrev pub set_close_state : IndexBuilder Ix F → IndexBuilder Ix F
  set_close_state b = record b { is_opened = false; is_closed = true }

  module _ (init_index : Option Ix) where
    -- `Open()`.
    unfoldable pub open_memory : IndexBuilder Ix F → Option (IndexBuilder Ix F)
    open_memory b = do
      check (not b.is_opened)
      ix ← init_index
      some (
          set_open_state
            (record b { memory_only = true; index_save_path = []; index_ref = some ix }))

    -- `Open(path)`.
    unfoldable pub open_path : List ℕ → IndexBuilder Ix F → Option (IndexBuilder Ix F)
    open_path path b = do
      check (not b.is_opened)
      ix ← init_index
      some (
          set_open_state
            (record b { memory_only = false; index_save_path = path; index_ref = some ix }))

  unfoldable pub close : IndexBuilder Ix F → Option (IndexBuilder Ix F)
  close b = do check b.is_opened; some (set_close_state b)

  -- The call of the writer with the index that is being built.
  abbrev pub write_index : Ix → IndexBuilder Ix F → IndexBuilder Ix F
  write_index ix b = record b { written = b.written ++ (ix, b.index_save_path, b.memory_only) ∷ [] }

  -- `FaissIndexBuilder::Flush`.
  unfoldable pub flush : IndexBuilder Ix F → Option (IndexBuilder Ix F)
  flush b = do check b.is_opened; check (not b.is_closed); ix ← b.index_ref; some (write_index ix b)

  module _ (dim : ℕ) (m : AddMethods Ix F) where
    abbrev pub choose_add :
        TypedSliceIterator F
        → Option (List ℕ)
        → Option (List ℕ)
        → IndexBuilder Ix F
        → Option (IndexBuilder Ix F)
    choose_add it none none b = m.add_raw it b
    choose_add it (some row_ids) none b = m.add_with_row_ids it row_ids b
    choose_add it (some row_ids) (some null_flags) b =
        m.add_with_row_ids_and_null_flags it row_ids null_flags b
    choose_add it none (some null_flags) b = none

    unfoldable pub add_impl :
        TypedSliceIterator F
        → Option (List ℕ)
        → Option (List ℕ)
        → IndexBuilder Ix F
        → Option (IndexBuilder Ix F)
    add_impl it row_ids null_flags b = do check_input dim it; choose_add it row_ids null_flags b

    unfoldable pub add :
        List (SeqView F)
        → Option (List ℕ)
        → Option (List ℕ)
        → Bool
        → IndexBuilder Ix F
        → Option (IndexBuilder Ix F)
    unfolding add_impl
    add input_columns row_ids null_flags inputs_live_longer_than_this b = do
      check b.is_opened
      check (not b.is_closed)
      check (not (b.use_custom_row_id && not (is_some row_ids)))
      check (not (not b.use_custom_row_id && is_some row_ids))
      check (not (not b.use_custom_row_id && is_some null_flags))
      it ← single_column input_columns
      add_impl it row_ids null_flags
          (record b { inputs_live_longer_than_this = inputs_live_longer_than_this })

  module _ (o : FaissIndex Ix F) (dim : ℕ) where
    unfoldable pub add_raw : TypedSliceIterator F → IndexBuilder Ix F → Option (IndexBuilder Ix F)
    add_raw it b = do
      ix ← b.index_ref
      xs ← all_rows dim it
      ix' ← o.add (size it) xs ix
      some (record b { index_ref = some ix' })

    -- `FaissIndexAddBatch` with row ids.
    unfoldable pub add_with_row_ids :
        TypedSliceIterator F → List ℕ → IndexBuilder Ix F → Option (IndexBuilder Ix F)
    add_with_row_ids it row_ids b = do
      ix ← b.index_ref
      xs ← all_rows dim it
      is ← range 0 (size it) row_ids
      ix' ← o.add_with_ids (size it) xs is ix
      some (record b { index_ref = some ix' })

    -- One round of the loop: `FaissIndexAddSingle` where the row is not null.
    abbrev pub add_single : TypedSliceIterator F → List ℕ → List ℕ → ℕ → ℕ → Ix → Option Ix
    add_single it row_ids null_flags i p ix = do
      flag ← get_elem? null_flags i
      let single = (do
        xs ← range p dim (values it)
        id ← get_elem? row_ids i
        o.add_with_ids 1 xs (id ∷ []) ix)
      if flag == 0 then single else some ix

    unfoldable pub add_with_row_ids_and_null_flags :
        TypedSliceIterator F → List ℕ → List ℕ → IndexBuilder Ix F → Option (IndexBuilder Ix F)
    add_with_row_ids_and_null_flags it row_ids null_flags b = do
      ix ← b.index_ref
      ix' ← for_each (λ i p len. add_single it row_ids null_flags i p) it ix
      some (record b { index_ref = some ix' })

    abbrev pub methods : AddMethods Ix F
    unfolding add_raw
    methods = record {
      add_raw = add_raw;
      add_with_row_ids = add_with_row_ids;
      add_with_row_ids_and_null_flags = add_with_row_ids_and_null_flags;
    }
