-- ===== src/Factory/Kinds.antt =====
-- The class of what a factory makes is the one for the type of the meta.
use tenann.Prelude.{
  ℕ, ◌≡◌, true, ◌⊎◌, inl, inr, ◌==◌, arith, if◌then◌else◌, Bool-cases, subst, ap, ◌∙◌, sym,
}
use tenann.Common.Float.{Floats}
use tenann.Common.Json.{JsonLibrary}
use tenann.Common.Outcome.{Outcome, Error, ok, error, message, check, bind-ok, then-ok, ok-inj}
use tenann.Index.Parameters.{
  fetch_common, fetch_extra, fetch_hnsw_search, fetch_ivf_pq_index, fetch_ivf_pq_search,
  fetch_reader, fetch_writer,
}
use tenann.Index.Parameters.Valid.{IsCommon, fetch_common-IsCommon}
use tenann.Store.IndexMeta.{IndexMeta, index_type}
use tenann.Factory.{
  faiss_hnsw, faiss_ivf_pq, IndexReader, faiss_index_reader, index_ivf_pq_reader, IndexWriter,
  faiss_index_writer, index_ivf_pq_writer, IndexBuilder, faiss_hnsw_index_builder,
  faiss_ivf_pq_index_builder, AnnSearcher, faiss_hnsw_ann_searcher, faiss_ivf_pq_ann_searcher,
  is_supported_metric, metric_message, create_reader_from_meta, create_writer_from_meta,
  new_hnsw_builder, new_ivf_pq_builder, create_builder_from_meta, new_hnsw_searcher,
  new_ivf_pq_searcher, create_searcher_from_meta,
}

-- The type of index that a class is for.
abbrev pub reader_type : IndexReader → ℕ
reader_type (faiss_index_reader options) = faiss_hnsw
reader_type (index_ivf_pq_reader options) = faiss_ivf_pq

abbrev pub writer_type : IndexWriter → ℕ
writer_type (faiss_index_writer options) = faiss_hnsw
writer_type (index_ivf_pq_writer options) = faiss_ivf_pq

-- A case that returns is the one of a type that is supported.
case_of_type :
    {A : Type 0} (type : ℕ) (hnsw ivf_pq : Outcome A) (e : Error) (a : A)
    → (if type == faiss_hnsw then hnsw else (if type == faiss_ivf_pq then ivf_pq else error e))
      ≡ ok a
    → ((type ≡ faiss_hnsw) × (hnsw ≡ ok a)) ⊎ ((type ≡ faiss_ivf_pq) × (ivf_pq ≡ ok a))
case_of_type type hnsw ivf_pq e a h = elim (Bool-cases (type == faiss_hnsw)) [
  | inl zero ↦ inl (ground (arith, zero), ground (arith, zero, h))
  | inr other ↦ elim (Bool-cases (type == faiss_ivf_pq)) [
    | inl two ↦ inr (ground (arith, two), ground (arith, other, two, h))
    | inr unknown ↦ absurd (ground (arith, other, unknown, h))
  ]
]

module _ {J F : Type 0} (lib : JsonLibrary J F) (meta : IndexMeta J) where
  create_reader-type :
      (r : IndexReader)
      → create_reader_from_meta lib meta ≡ ok r
      → index_type lib meta ≡ ok (reader_type r)
  unfolding create_reader_from_meta
  create_reader-type r h =
      let (type, h₁, g) = bind-ok (index_type lib meta) _ r h in
      elim (case_of_type type _ _ _ r g) [
        | inl (is_type, made) ↦
            let (p, h₂, same) =
              bind-ok (fetch_reader lib meta) (λ p. ok (faiss_index_reader p)) r made in
            subst (λ r. index_type lib meta ≡ ok (reader_type r)) (ok-inj _ r same)
              (h₁ ∙ ap ok is_type)
        | inr (is_type, made) ↦
            let (p, h₂, same) =
              bind-ok (fetch_reader lib meta) (λ p. ok (index_ivf_pq_reader p)) r made in
            subst (λ r. index_type lib meta ≡ ok (reader_type r)) (ok-inj _ r same)
              (h₁ ∙ ap ok is_type)
      ]

  create_writer-type :
      (w : IndexWriter)
      → create_writer_from_meta lib meta ≡ ok w
      → index_type lib meta ≡ ok (writer_type w)
  unfolding create_writer_from_meta
  create_writer-type w h =
      let (type, h₁, g) = bind-ok (index_type lib meta) _ w h in
      elim (case_of_type type _ _ _ w g) [
        | inl (is_type, made) ↦
            let (p, h₂, same) =
              bind-ok (fetch_writer lib meta) (λ p. ok (faiss_index_writer p)) w made in
            subst (λ w. index_type lib meta ≡ ok (writer_type w)) (ok-inj _ w same)
              (h₁ ∙ ap ok is_type)
        | inr (is_type, made) ↦
            let (p, h₂, same) =
              bind-ok (fetch_writer lib meta) (λ p. ok (index_ivf_pq_writer p)) w made in
            subst (λ w. index_type lib meta ≡ ok (writer_type w)) (ok-inj _ w same)
              (h₁ ∙ ap ok is_type)
      ]

  -- What a builder or a searcher for `type` is made of: the writer or reader of that type, and common
  -- parameters of the meta within their bounds.
  abbrev pub BuilderFor : ℕ → IndexBuilder F → Type 0
  BuilderFor type (faiss_hnsw_index_builder w p extra) =
      (type ≡ faiss_hnsw)
      × (writer_type w ≡ type)
      × IsCommon lib meta p
      × (is_supported_metric p.metric_type ≡ true)
  BuilderFor type (faiss_ivf_pq_index_builder w p extra index search) =
      (type ≡ faiss_ivf_pq)
      × (writer_type w ≡ type)
      × IsCommon lib meta p
      × (is_supported_metric p.metric_type ≡ true)

  abbrev pub SearcherFor : ℕ → AnnSearcher F → Type 0
  SearcherFor type (faiss_hnsw_ann_searcher r p search) =
      (type ≡ faiss_hnsw) × (reader_type r ≡ type) × IsCommon lib meta p
  SearcherFor type (faiss_ivf_pq_ann_searcher r p search) =
      (type ≡ faiss_ivf_pq) × (reader_type r ≡ type) × IsCommon lib meta p

  module _ (o : Floats F) where
    new_hnsw_builder-for :
        (type : ℕ) (b : IndexBuilder F)
        → type ≡ faiss_hnsw
        → index_type lib meta ≡ ok type
        → new_hnsw_builder lib o meta ≡ ok b
        → BuilderFor type b
    unfolding new_hnsw_builder
    new_hnsw_builder-for type b is_type read h =
        let (w, h₁, g₁) = bind-ok (create_writer_from_meta lib meta) _ b h in
        let (p, h₂, g₂) = bind-ok (fetch_common lib meta) _ b g₁ in
        let (extra, h₃, g₃) = bind-ok (fetch_extra lib meta) _ b g₂ in
        let (metric, same) = then-ok _ (ok _) b g₃ in
        subst (BuilderFor type) (ok-inj _ b same) (
          is_type,
          ok-inj _ _ (sym (create_writer-type w h₁) ∙ read),
          fetch_common-IsCommon lib meta p h₂,
          ground (arith, metric),
        )

    new_ivf_pq_builder-for :
        (type : ℕ) (b : IndexBuilder F)
        → type ≡ faiss_ivf_pq
        → index_type lib meta ≡ ok type
        → new_ivf_pq_builder lib o meta ≡ ok b
        → BuilderFor type b
    unfolding new_ivf_pq_builder
    new_ivf_pq_builder-for type b is_type read h =
        let (w, h₁, g₁) = bind-ok (create_writer_from_meta lib meta) _ b h in
        let (p, h₂, g₂) = bind-ok (fetch_common lib meta) _ b g₁ in
        let (extra, h₃, g₃) = bind-ok (fetch_extra lib meta) _ b g₂ in
        let (metric, g₄) =
          then-ok (check (is_supported_metric p.metric_type) (message metric_message)) _ b g₃ in
        let (index, h₅, g₅) = bind-ok (fetch_ivf_pq_index lib meta) _ b g₄ in
        let (search, h₆, g₆) = bind-ok (fetch_ivf_pq_search lib o meta) _ b g₅ in
        let (again, same) =
          then-ok (check (is_supported_metric p.metric_type) (message metric_message)) (ok _) b
            g₆ in
        subst (BuilderFor type) (ok-inj (faiss_ivf_pq_index_builder w p extra index search) b same)
          (
            is_type,
            ok-inj _ _ (sym (create_writer-type w h₁) ∙ read),
            fetch_common-IsCommon lib meta p h₂,
            ground (arith, metric),
          )

    -- A builder that the factory makes is one for the type of the meta, with the writer of that type,
    -- valid common parameters and a supported metric.
    pub create_builder-for :
        (b : IndexBuilder F)
        → create_builder_from_meta lib o meta ≡ ok b
        → (type : ℕ) × (index_type lib meta ≡ ok type) × BuilderFor type b
    unfolding create_builder_from_meta
    create_builder-for b h =
        let (type, read, g) = bind-ok (index_type lib meta) _ b h in
        elim (case_of_type type _ _ _ b g) [
          | inl (is_type, made) ↦ (type, read, new_hnsw_builder-for type b is_type read made)
          | inr (is_type, made) ↦ (type, read, new_ivf_pq_builder-for type b is_type read made)
        ]

    new_hnsw_searcher-for :
        (type : ℕ) (s : AnnSearcher F)
        → type ≡ faiss_hnsw
        → index_type lib meta ≡ ok type
        → new_hnsw_searcher lib o meta ≡ ok s
        → SearcherFor type s
    unfolding new_hnsw_searcher
    new_hnsw_searcher-for type s is_type read h =
        let (r, h₁, g₁) = bind-ok (create_reader_from_meta lib meta) _ s h in
        let (p, h₂, g₂) = bind-ok (fetch_common lib meta) _ s g₁ in
        let (search, h₃, same) = bind-ok (fetch_hnsw_search lib meta) (λ x. ok _) s g₂ in
        subst (SearcherFor type) (ok-inj _ s same) (
          is_type,
          ok-inj _ _ (sym (create_reader-type r h₁) ∙ read),
          fetch_common-IsCommon lib meta p h₂,
        )

    new_ivf_pq_searcher-for :
        (type : ℕ) (s : AnnSearcher F)
        → type ≡ faiss_ivf_pq
        → index_type lib meta ≡ ok type
        → new_ivf_pq_searcher lib o meta ≡ ok s
        → SearcherFor type s
    unfolding new_ivf_pq_searcher
    new_ivf_pq_searcher-for type s is_type read h =
        let (r, h₁, g₁) = bind-ok (create_reader_from_meta lib meta) _ s h in
        let (p, h₂, g₂) = bind-ok (fetch_common lib meta) _ s g₁ in
        let (search, h₃, same) = bind-ok (fetch_ivf_pq_search lib o meta) (λ x. ok _) s g₂ in
        subst (SearcherFor type) (ok-inj _ s same) (
          is_type,
          ok-inj _ _ (sym (create_reader-type r h₁) ∙ read),
          fetch_common-IsCommon lib meta p h₂,
        )

    -- A searcher that the factory makes is one for the type of the meta, with the reader of that type
    -- and valid common parameters.
    pub create_searcher-for :
        (s : AnnSearcher F)
        → create_searcher_from_meta lib o meta ≡ ok s
        → (type : ℕ) × (index_type lib meta ≡ ok type) × SearcherFor type s
    unfolding create_searcher_from_meta
    create_searcher-for s h =
        let (type, read, g) = bind-ok (index_type lib meta) _ s h in
        elim (case_of_type type _ _ _ s g) [
          | inl (is_type, made) ↦ (type, read, new_hnsw_searcher-for type s is_type read made)
          | inr (is_type, made) ↦ (type, read, new_ivf_pq_searcher-for type s is_type read made)
        ]
