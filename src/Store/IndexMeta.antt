-- ===== src/Store/IndexMeta.antt =====
-- IndexMeta of store/index_meta.h and store/index_meta.cc. Reading and writing of files is left
-- out, and so are the setters of whole sections. An int is its 32-bit pattern.
pub mod Integrity
use Prim.Native.String.{String}
use tenann.Prelude.{ℕ, Bool, true, false, not, Option, none, some, List, if◌then◌else◌}
use tenann.Common.Json.{JsonLibrary}
use tenann.Common.Outcome.{Outcome, ok, error, message, parameter_not_set, catch_json, ◌>>=◌, ◌>>◌}

pub record IndexMeta (J : Type 0) : Type 0 where
  pub meta_json : J

abbrev pub version_message : String
version_message = "meta_version (`meta_versoin`) not set in index meta"

abbrev pub family_message : String
family_message = "index faimily not set in index meta"

abbrev pub type_message : String
type_message = "index type not set in index meta"

module _ {J F : Type 0} (lib : JsonLibrary J F) where
  abbrev pub put_key : String → J → IndexMeta J → Outcome (IndexMeta J)
  put_key key value m = do j ← lib.put key value m.meta_json; ok (record { meta_json = j })

  -- The constructor without arguments.
  unfoldable pub new_meta : Outcome (IndexMeta J)
  new_meta = do
    m ← put_key "common" lib.null (record { meta_json = lib.null })
    m ← put_key "index" lib.null m
    m ← put_key "search" lib.null m
    m ← put_key "extra" lib.null m
    m ← put_key "write_index" lib.null m
    put_key "read_index" lib.null m

  unfoldable pub set_meta_version : ℕ → IndexMeta J → Outcome (IndexMeta J)
  set_meta_version version m = put_key "meta_version" (lib.from_int version) m

  unfoldable pub set_index_family : ℕ → IndexMeta J → Outcome (IndexMeta J)
  set_index_family family m = put_key "family" (lib.from_int family) m

  unfoldable pub set_index_type : ℕ → IndexMeta J → Outcome (IndexMeta J)
  set_index_type type m = put_key "type" (lib.from_int type) m

  abbrev pub get_key : String → String → IndexMeta J → Outcome ℕ
  get_key key text m =
      if not (lib.contains key m.meta_json)
      then error (message text)
      else lib.at key m.meta_json >>= lib.get_int

  unfoldable pub meta_version : IndexMeta J → Outcome ℕ
  meta_version m = get_key "meta_version" version_message m

  unfoldable pub index_family : IndexMeta J → Outcome ℕ
  index_family m = get_key "family" family_message m

  unfoldable pub index_type : IndexMeta J → Outcome ℕ
  index_type m = get_key "type" type_message m

  -- The message, where the check fails.
  unfoldable pub check_integrity : IndexMeta J → Option String
  check_integrity m =
      if not (lib.contains "meta_version" m.meta_json)
      then some version_message
      else if not (lib.contains "family" m.meta_json)
      then some family_message
      else if not (lib.contains "type" m.meta_json)
      then some type_message
      else none

  unfoldable pub check_or_throw_error : IndexMeta J → Outcome (Unit {0})
  check_or_throw_error m = elim (check_integrity m) [
    | none ↦ ok tt
    | some text ↦ error (message text)
  ]

  unfoldable pub parse : String → Outcome (IndexMeta J)
  unfolding check_or_throw_error
  parse text = catch_json (do
    j ← lib.parse text
    let m : IndexMeta J = record { meta_json = j }
    check_or_throw_error m
    ok m)

  -- No check here.
  unfoldable pub deserialize : List ℕ → Outcome (IndexMeta J)
  deserialize buffer = catch_json (do j ← lib.from_msgpack buffer; ok (record { meta_json = j }))

  module _ {T : Type 0} (get : J → Outcome T) where
    unfoldable pub get_optional : String → String → IndexMeta J → Outcome (Option T)
    get_optional section_key key m = catch_json (do
      sub_json ← lib.at section_key m.meta_json
      let present = (do j ← lib.at key sub_json; value ← get j; ok (some value))
      if lib.contains key sub_json then present else ok none)

    unfoldable pub get_required : String → String → IndexMeta J → Outcome T
    get_required section_key key m = catch_json (do
      sub_json ← lib.at section_key m.meta_json
      let present = (do j ← lib.at key sub_json; get j)
      let missing = error (parameter_not_set section_key key)
      if not (lib.contains key sub_json) then missing else present)
