-- ===== src/Utils.antt =====
-- Utils.hpp: the form encoding. A text is a list of byte values.
pub mod Decoding
mod Examples
use collab_vm_server.Base.{
  ℕ, ◌+◌, ◌/◌, ◌%◌, Bool, ◌&&◌, ◌||◌, List, [], ◌∷◌, ◌++◌, leb, ltb, ◌==◌, if◌then◌else◌,
}
use collab_vm_server.Message.{Text}

-- The characters that stay: letters, digits and the marks - _ . ! ~ * ' ( ).
abbrev pub is_unreserved : ℕ → Bool
is_unreserved c =
    (leb 65 c && leb c 90)
    || (leb 97 c && leb c 122)
    || (leb 48 c && leb c 57)
    || (leb 39 c && leb c 42)
    || (leb 45 c && leb c 46)
    || (c == 95)
    || (c == 33)
    || (c == 126)

-- An uppercase hexadecimal digit.
abbrev pub hex_digit : ℕ → ℕ
hex_digit d = if ltb d 10 then 48 + d else 55 + d

-- The output for a character: a space is a plus, an escape is % with two digits.
abbrev pub encode_character : ℕ → Text
encode_character c =
    if c == 32
    then 43 ∷ []
    else (if is_unreserved c then c ∷ [] else 37 ∷ hex_digit (c / 16) ∷ hex_digit (c % 16) ∷ [])

abbrev pub form_urlencode : Text → Text
form_urlencode [] = []
form_urlencode (c ∷ src) = encode_character c ++ form_urlencode src
