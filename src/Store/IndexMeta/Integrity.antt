-- ===== src/Store/IndexMeta/Integrity.antt =====
-- A meta that was checked, and one that was built by the setters.
use Prim.Native.String.{String}
use tenann.Prelude.{ℕ, ◌<◌, ◌^◌, ◌≡◌, refl, true, none, arith, subst, ◌∙◌}
use tenann.Common.Json.{JsonLibrary, Documented}
use tenann.Common.Outcome.{ok, ◌>>=◌, bind-ok, then-ok, ok-inj, catch_json-ok}
use tenann.Store.IndexMeta.{
  IndexMeta, new_meta, set_meta_version, set_index_family, set_index_type, meta_version,
  index_family, index_type, check_integrity, check_or_throw_error, parse,
}

module _ {J F : Type 0} (lib : JsonLibrary J F) where
  check_or_throw_error-ok :
      (m : IndexMeta J)
      → check_or_throw_error lib m ≡ ok tt
      → (lib.contains "meta_version" m.meta_json ≡ true)
        × (lib.contains "family" m.meta_json ≡ true)
        × (lib.contains "type" m.meta_json ≡ true)
  unfolding check_or_throw_error check_integrity
  check_or_throw_error-ok m h = ground (arith, h)

  -- A text that Parse accepts is one that the JSON library parses, and meta_version, index_family and
  -- index_type of the meta do not throw for a key that is not set: each reads the value of its key.
  pub parse-getters :
      (text : String) (m : IndexMeta J)
      → parse lib text ≡ ok m
      → (lib.parse text ≡ ok m.meta_json)
        × (meta_version lib m ≡ (lib.at "meta_version" m.meta_json >>= lib.get_int))
        × (index_family lib m ≡ (lib.at "family" m.meta_json >>= lib.get_int))
        × (index_type lib m ≡ (lib.at "type" m.meta_json >>= lib.get_int))
  unfolding parse meta_version index_family index_type
  parse-getters text m h =
      let (j, parsed, h') = bind-ok (lib.parse text) _ m (catch_json-ok _ m h) in
      let (checked, same) = then-ok _ (ok _) m h' in
      let (a, b, c) = check_or_throw_error-ok (record { meta_json = j }) checked in
      subst
        (λ m.
          (lib.parse text ≡ ok m.meta_json)
          × (meta_version lib m ≡ (lib.at "meta_version" m.meta_json >>= lib.get_int))
          × (index_family lib m ≡ (lib.at "family" m.meta_json >>= lib.get_int))
          × (index_type lib m ≡ (lib.at "type" m.meta_json >>= lib.get_int)))
        (ok-inj _ m same) (parsed, ground (arith, a), ground (arith, b), ground (arith, c))

  module _ {IsObject : J → Type 0} (documented : Documented lib IsObject) where
    -- A meta that comes from the constructor.
    new_meta-IsObject : (m : IndexMeta J) × (new_meta lib ≡ ok m) × IsObject m.meta_json
    unfolding new_meta
    new_meta-IsObject =
        let (a, put_a, is_a, _, _, _) =
          documented.puts "common" lib.null lib.null documented.null_is_object in
        let (b, put_b, is_b, _, _, _) = documented.puts "index" lib.null a is_a in
        let (c, put_c, is_c, _, _, _) = documented.puts "search" lib.null b is_b in
        let (d, put_d, is_d, _, _, _) = documented.puts "extra" lib.null c is_c in
        let (e, put_e, is_e, _, _, _) = documented.puts "write_index" lib.null d is_d in
        let (f, put_f, is_f, _, _, _) = documented.puts "read_index" lib.null e is_e in
        (record { meta_json = f }, ground (arith, put_a, put_b, put_c, put_d, put_e, put_f), is_f)

    -- The version, the family and the type that the setters give a new meta come back from the
    -- getters, and the meta passes the check of integrity.
    pub setters-getters :
        (version family type : ℕ)
        → version < 2 ^ 32
        → family < 2 ^ 32
        → type < 2 ^ 32
        → (m : IndexMeta J) × ((do
          a ← new_meta lib
          b ← set_meta_version lib version a
          c ← set_index_family lib family b
          set_index_type lib type c)
            ≡ ok m)
          × (check_integrity lib m ≡ none)
          × (meta_version lib m ≡ ok version)
          × (index_family lib m ≡ ok family)
          × (index_type lib m ≡ ok type)
    unfolding set_meta_version set_index_family set_index_type check_integrity meta_version
        index_family index_type
    setters-getters version family type v f t =
        let (m, made, is_m) = new_meta-IsObject in
        let (a, put_a, is_a, has_a, at_a, _) =
          documented.puts "meta_version" (lib.from_int version) m.meta_json is_m in
        let (b, put_b, is_b, has_b, at_b, keep_b) =
          documented.puts "family" (lib.from_int family) a is_a in
        let (c, put_c, is_c, has_c, at_c, keep_c) =
          documented.puts "type" (lib.from_int type) b is_b in
        let version_a : lib.contains "meta_version" a ≡ true =
          ground (arith, has_a "meta_version") in
        let version_b : lib.contains "meta_version" b ≡ true =
          ground (arith, has_b "meta_version", version_a) in
        let version_c : lib.contains "meta_version" c ≡ true =
          ground (arith, has_c "meta_version", version_b) in
        let family_b : lib.contains "family" b ≡ true = ground (arith, has_b "family") in
        let family_c : lib.contains "family" c ≡ true = ground (arith, has_c "family", family_b) in
        let type_c : lib.contains "type" c ≡ true = ground (arith, has_c "type") in
        let version_at : lib.at "meta_version" c ≡ ok (lib.from_int version) =
          keep_c "meta_version" version_b refl ∙ keep_b "meta_version" version_a refl ∙ at_a in
        let family_at : lib.at "family" c ≡ ok (lib.from_int family) =
          keep_c "family" family_b refl ∙ at_b in
        (
          record { meta_json = c },
          ground (arith, made, put_a, put_b, put_c),
          ground (arith, version_c, family_c, type_c),
          ground (arith, version_c, version_at, documented.reads_int version v),
          ground (arith, family_c, family_at, documented.reads_int family f),
          ground (arith, type_c, at_c, documented.reads_int type t),
        )
