-- ===== src/Common/Outcome.antt =====
-- Error of common/error.h, json::exception and faiss::FaissException as values. A call returns, throws one of them, or is
-- undefined (`fault`: a failed assertion or a read of what is not there).
use Prim.Native.String.{String}
use tenann.Prelude.{ℕ, Bool, true, false, ◌≡◌, refl, ap, arith}

-- `json_exception` and `faiss_exception` are thrown by the two libraries; the others are Error, with
-- what they tell.
pub data Error : Type 0 where
  json_exception : Error
  json_error : Error
  faiss_exception : Error
  faiss_error : Error
  message : String → Error
  parameter_not_set : String → String → Error
  out_of_range : String → Error
  unsupported_type : ℕ → Error

pub data Outcome {ℓ} (A : Type ℓ) : Type ℓ where
  ok : A → Outcome A
  error : Error → Outcome A
  fault : Outcome A

infixl 5 ◌>>=◌ ◌>>◌
abbrev pub ◌>>=◌ {ℓ κ} : {A : Type ℓ} {B : Type κ} → Outcome A → (A → Outcome B) → Outcome B
ok a >>= f = f a
error e >>= f = error e
fault >>= f = fault

abbrev pub ◌>>◌ {ℓ} : {B : Type ℓ} → Outcome (Unit {0}) → Outcome B → Outcome B
m >> k = m >>= λ _. k

-- T_CHECK with its message, and T_LOG(ERROR) on a condition.
abbrev pub check : Bool → Error → Outcome (Unit {0})
check true e = ok tt
check false e = error e

-- `catch (json::exception& e)`, which throws an Error with the same text.
abbrev pub catch_json {ℓ} : {A : Type ℓ} → Outcome A → Outcome A
catch_json (ok a) = ok a
catch_json (error json_exception) = error json_error
catch_json (error e) = error e
catch_json fault = fault

-- CATCH_FAISS_ERROR.
abbrev pub catch_faiss {ℓ} : {A : Type ℓ} → Outcome A → Outcome A
catch_faiss (ok a) = ok a
catch_faiss (error faiss_exception) = error faiss_error
catch_faiss (error e) = error e
catch_faiss fault = fault

pub bind-ok {ℓ κ} :
    {A : Type ℓ} {B : Type κ} (m : Outcome A) (f : A → Outcome B) (b : B)
    → (m >>= f) ≡ ok b
    → (a : A) × (m ≡ ok a) × (f a ≡ ok b)
bind-ok (ok a) f b h = (a, refl, h)
bind-ok (error e) f b h = ground arith
bind-ok fault f b h = ground arith

-- A step without a result that returns, and what comes after it.
pub then-ok {ℓ} :
    {B : Type ℓ} (m : Outcome (Unit {0})) (k : Outcome B) (b : B)
    → (m >> k) ≡ ok b
    → (m ≡ ok tt) × (k ≡ ok b)
then-ok (ok tt) k b h = (refl, h)
then-ok (error e) k b h = ground arith
then-ok fault k b h = ground arith

abbrev ok_or {ℓ} : {A : Type ℓ} → A → Outcome A → A
ok_or a (ok b) = b
ok_or a (error e) = a
ok_or a fault = a

pub ok-inj {ℓ} : {A : Type ℓ} (a b : A) → ok a ≡ ok b → a ≡ b
ok-inj a b h = ap (ok_or a) h

pub catch_json-ok {ℓ} : {A : Type ℓ} (m : Outcome A) (a : A) → catch_json m ≡ ok a → m ≡ ok a
catch_json-ok (ok a) b h = h
catch_json-ok (error json_exception) a h = ground arith
catch_json-ok (error json_error) a h = ground arith
catch_json-ok (error faiss_exception) a h = ground arith
catch_json-ok (error faiss_error) a h = ground arith
catch_json-ok (error (message s)) a h = ground arith
catch_json-ok (error (parameter_not_set s k)) a h = ground arith
catch_json-ok (error (out_of_range s)) a h = ground arith
catch_json-ok (error (unsupported_type n)) a h = ground arith
catch_json-ok fault a h = ground arith
