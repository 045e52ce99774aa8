-- ===== src/Addresses.antt =====
-- server/src/addresses.ts, and the form in which SQLite compares stored addresses. Letters outside
-- ASCII are left as they are by `to_upper`.
pub mod Laws
use steakout.Prelude.{
  ℕ, ◌+◌, ◌-◌, Text, text, text_eq, is_space, trim, is_empty, Bool, true, false, not, ◌&&◌, ◌||◌,
  Option, none, some, [], ◌∷◌, ◌++◌, map, leb, ◌==◌, if◌then◌else◌, filter, all, length, take, drop,
}

unfoldable pub to_upper : ℕ → ℕ
to_upper c = if leb b'a' c && leb c b'z' then c - 32 else c

-- `address.replace(/\s+/g, '').toUpperCase()`
unfoldable pub normalize_address : Text → Text
normalize_address address = map to_upper (filter (λ c. not (is_space c)) address)

-- `[0-9A-Z]`
unfoldable pub is_address_char : ℕ → Bool
is_address_char c = (leb b'0' c && leb c b'9') || (leb b'A' c && leb c b'Z')

-- `/^NQ[0-9A-Z]{34}$/`
unfoldable pub has_address_shape : Text → Bool
unfolding is_address_char
has_address_shape (n ∷ q ∷ rest) =
    n == b'N' && q == b'Q' && length rest == 34 && all is_address_char rest
has_address_shape _ = false

unfoldable pub is_valid_nimiq_address : Option Text → Bool
is_valid_nimiq_address none = false
is_valid_nimiq_address (some address) =
    if is_empty (trim address) then false else has_address_shape (normalize_address address)

unfoldable pub short_address : Text → Text
short_address address =
    let clean = normalize_address address in
    take 4 clean ++ text "…" ++ drop (length clean - 4) clean

unfoldable pub addresses_equal : Option Text → Option Text → Bool
addresses_equal none b = false
addresses_equal (some a) none = false
addresses_equal (some a) (some b) =
    if not (is_valid_nimiq_address (some a)) || not (is_valid_nimiq_address (some b))
    then false
    else text_eq (normalize_address a) (normalize_address b)

-- `replace(upper(address), ' ', '')`: SQLite removes the blank alone.
unfoldable pub sql_address : Text → Text
sql_address address = filter (λ c. not (c == 32)) (map to_upper address)
