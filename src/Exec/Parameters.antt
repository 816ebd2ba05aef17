-- ===== src/Exec/Parameters.antt =====
-- internal/exec/parameters.go. A parameter value is a list, a map, or any other Go value, which the
-- code never looks into.
use ferretd.Prelude.{String, ◌≡◌, refl, ap, ap₂}

mutual
  pub data Value : Type 0 where
    other : String → Value
    list : Values → Value
    object : Fields → Value

  pub data Values : Type 0 where
    nil : Values
    cons : Value → Values → Values

  pub data Fields : Type 0 where
    end : Fields
    field : String → Value → Fields → Fields

-- A nil map is kept apart from an empty one.
pub data Parameters : Type 0 where
  absent : Parameters
  entries : Fields → Parameters

unfoldable mutual
  pub clone_value : Value → Value
  clone_value (other v) = other v
  clone_value (list vs) = list (clone_values vs)
  clone_value (object fs) = object (clone_fields fs)

  pub clone_values : Values → Values
  clone_values nil = nil
  clone_values (cons v vs) = cons (clone_value v) (clone_values vs)

  pub clone_fields : Fields → Fields
  clone_fields end = end
  clone_fields (field k v fs) = field k (clone_value v) (clone_fields fs)

unfoldable pub clone : Parameters → Parameters
clone absent = absent
clone (entries fs) = entries (clone_fields fs)

mutual
  unfolding clone_value clone_values clone_fields

  clone_value_eq : (v : Value) → clone_value v ≡ v
  clone_value_eq (other v) = refl
  clone_value_eq (list vs) = ap list (clone_values_eq vs)
  clone_value_eq (object fs) = ap object (clone_fields_eq fs)

  clone_values_eq : (vs : Values) → clone_values vs ≡ vs
  clone_values_eq nil = refl
  clone_values_eq (cons v vs) = ap₂ cons (clone_value_eq v) (clone_values_eq vs)

  clone_fields_eq : (fs : Fields) → clone_fields fs ≡ fs
  clone_fields_eq end = refl
  clone_fields_eq (field k v fs) = ap₂ (field k) (clone_value_eq v) (clone_fields_eq fs)

-- A copy holds the same values at every depth.
pub clone_lem : (p : Parameters) → clone p ≡ p
unfolding clone
clone_lem absent = refl
clone_lem (entries fs) = ap entries (clone_fields_eq fs)
