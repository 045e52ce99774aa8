-- ===== src/Json.antt =====
-- The values of a JSON body, as the handlers look at them.
use steakout.Prelude.{Text, [], text_eq, trim, Bool, if◌then◌else◌}
use steakout.Prelude.Js.{Num}

-- A value of a JSON body. `absent` is what a missing property reads as.
mutual
  pub data Value : Type 0 where
    absent null array : Value
    boolean : Bool → Value
    number : Num → Value
    string : Text → Value
    object : Fields → Value

  pub data Fields : Type 0 where
    end : Fields
    field : Text → Value → Fields → Fields

unfoldable pub get_field : Text → Fields → Value
get_field key end = absent
get_field key (field k v rest) = if text_eq k key then v else get_field key rest

-- `typeof v === 'string' ? v.trim() : ''`
unfoldable pub trimmed_string : Value → Text
trimmed_string (string t) = trim t
trimmed_string _ = []
