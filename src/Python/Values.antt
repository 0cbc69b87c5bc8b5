-- ===== src/Python/Values.antt =====
-- Python values, exceptions, and results of code that may raise.
use stapel_realtime.Prelude.{ℕ, String, Bool, Option, ◌^◌, ◌≡◌, refl, ◌⊎◌, inl, inr}
use stapel_realtime.Prelude.Int.{ℤ}

-- A float; `finite z` is z / `units`, and `inf true` is minus infinity.
pub data Float : Type 0 where
  finite : ℤ → Float
  inf : Bool → Float
  nan : Float

abbrev pub units : ℕ
units = 2 ^ 22

mutual
  pub data Value : Type 0 where
    null : Value
    bool : Bool → Value
    int : ℤ → Value
    float : Float → Value
    str : String → Value
    obj : Fields → Value
    arr : Items → Value

  pub data Fields : Type 0 where
    end : Fields
    field : String → Value → Fields → Fields

  pub data Items : Type 0 where
    nil : Items
    cons : Value → Items → Items

-- The exceptions that the program raises or catches; `other` is any other that a called function
-- of another package raises.
pub data Exn : Type 0 where
  type_error value_error overflow_error key_error attribute_error not_implemented other : Exn
  invalid_envelope : String → Exn
  invalid_stream_key : Exn

pub data Result {ℓ} (A : Type ℓ) : Type ℓ where
  ok : A → Result A
  raise : Exn → Result A

infixl 5 ◌>>=◌
abbrev pub ◌>>=◌ {ℓ κ} : {A : Type ℓ} {B : Type κ} → Result A → (A → Result B) → Result B
ok a >>= f = f a
raise e >>= f = raise e

-- Inversions of a bind.
module _ {ℓ κ} {A : Type ℓ} {B : Type κ} where
  pub >>=-eq-ok :
      (m : Result A) (f : A → Result B) {b : B} (bound : m >>= f ≡ ok b)
      → (a : A) × (m ≡ ok a) × (f a ≡ ok b)
  >>=-eq-ok (raise e) f bound = cc
  >>=-eq-ok (ok a) f bound = (a, refl, bound)

  pub >>=-eq-raise :
      (m : Result A) (f : A → Result B) {e : Exn} (bound : m >>= f ≡ raise e)
      → (m ≡ raise e) ⊎ ((a : A) × (m ≡ ok a) × (f a ≡ raise e))
  >>=-eq-raise (ok a) f bound = inr (a, refl, bound)
  >>=-eq-raise (raise e) f bound = inl (cc)

pub Result-cases {ℓ} :
    {A : Type ℓ} (r : Result A) → ((a : A) × (r ≡ ok a)) ⊎ ((e : Exn) × (r ≡ raise e))
Result-cases (ok a) = inl (a, refl)
Result-cases (raise e) = inr (e, refl)

-- What the language does with text and is not written out here: `repr(v)`, `int(s)` and `float(s)`
-- of a text (`none` where they raise ValueError), and `hashlib.sha256(s).hexdigest()`.
pub record Texts : Type 0 where
  pub sha256 : String → String
  pub repr : Value → String
  pub int_of : String → Option ℤ
  pub float_of : String → Option Float
