-- ===== src/Common/Json.antt =====
-- nlohmann::json, as far as the code calls it. `J` is a JSON value and `F` a float.
use Prim.Native.String.{String}
use text.Mathlib.Text.{◌==◌ as str_eq}
use tenann.Prelude.{ℕ, ◌<◌, ◌^◌, ◌≡◌, Bool, true, false, ◌||◌, List}
use tenann.Common.Outcome.{Outcome, ok}

-- `at` is the const operator[], which asserts that the key is there, and `put` the assignment
-- through operator[]. The getters throw on a value of another type.
pub record JsonLibrary (J F : Type 0) : Type 0 where
  pub null : J
  pub contains : String → J → Bool
  pub at : String → J → Outcome J
  pub put : String → J → J → Outcome J
  pub items : J → List (String × J)
  pub from_int : ℕ → J
  pub is_number_integer : J → Bool
  pub is_boolean : J → Bool
  pub get_int : J → Outcome ℕ
  pub get_size : J → Outcome ℕ
  pub get_bool : J → Outcome Bool
  pub get_float : J → Outcome F
  pub get_string : J → Outcome String
  pub parse : String → Outcome J
  pub from_msgpack : List ℕ → Outcome J

-- The documented behaviour of objects: an assignment is read back, and leaves the other keys.
-- `IsObject` holds of the null value too, which becomes an object on the first assignment.
pub record Documented {J F : Type 0} (lib : JsonLibrary J F) (IsObject : J → Type 0) : Type 0 where
  pub null_is_object : IsObject lib.null
  pub puts :
      (k : String) (v j : J)
      → IsObject j
      → (j' : J) × (lib.put k v j ≡ ok j')
        × IsObject j'
        × ((i : String) → lib.contains i j' ≡ (str_eq k i || lib.contains i j))
        × (lib.at k j' ≡ ok v)
        × ((i : String) → lib.contains i j ≡ true → str_eq k i ≡ false → lib.at i j' ≡ lib.at i j)
  pub reads_int : (n : ℕ) → n < 2 ^ 32 → lib.get_int (lib.from_int n) ≡ ok n
