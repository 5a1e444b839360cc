-- ===== src/Utils/Decoding.antt =====
-- Utils.hpp: what a reader of a form gets back.
use collab_vm_server.Base.{
  ℕ, ◌+◌, ◌-◌, ◌*◌, ◌/◌, ◌%◌, ◌<◌, ◌≡◌, refl, ap, true, false, Option, none, some, [], ◌∷◌, ◌++◌,
  All, ltb, ◌==◌, if◌then◌else◌, Bool-cases, map_option, inl, inr, arith,
}
use collab_vm_server.Message.{Text}
use collab_vm_server.Utils.{is_unreserved, hex_digit, encode_character, form_urlencode}

-- A reader of a form: between characters, after a %, and after its first digit.
pub data Reading : Type 0 where
  plain first_digit : Reading
  second_digit : ℕ → Reading

abbrev pub digit_value : ℕ → ℕ
digit_value h = if ltb h 65 then h - 48 else h - 55

unfoldable pub form_decode : Reading → Text → Option Text
form_decode plain [] = some []
form_decode first_digit [] = none
form_decode (second_digit d) [] = none
form_decode plain (c ∷ cs) =
    let rest = form_decode plain cs in
    let escape = form_decode first_digit cs in
    if c == 37 then escape else map_option (λ t. (if c == 43 then 32 else c) ∷ t) rest
form_decode first_digit (c ∷ cs) = form_decode (second_digit (digit_value c)) cs
form_decode (second_digit d) (c ∷ cs) =
    map_option (λ t. (d * 16 + digit_value c) ∷ t) (form_decode plain cs)

digit_value-hex_digit : (d : ℕ) → d < 16 → digit_value (hex_digit d) ≡ d
digit_value-hex_digit d h = ground arith

unreserved-plain : (c : ℕ) → is_unreserved c ≡ true → (c == 37) ≡ false
unreserved-plain c h = ground arith

-- A plus is a character that the reader takes for a space.
unreserved-no_plus : (c : ℕ) → is_unreserved c ≡ true → (c == 43) ≡ false
unreserved-no_plus c h = ground arith

two_digits :
    (c : ℕ) → c < 256 → digit_value (hex_digit (c / 16)) * 16 + digit_value (hex_digit (c % 16)) ≡ c
two_digits c h =
    rw (digit_value-hex_digit (c / 16) (omega arith), digit_value-hex_digit (c % 16) (omega arith))
      (omega arith)

decode-encode_character :
    (c : ℕ) (rest : Text)
    → c < 256
    → form_decode plain (encode_character c ++ rest)
      ≡ map_option (λ t. c ∷ t) (form_decode plain rest)
unfolding form_decode
decode-encode_character c rest h = elim (Bool-cases (c == 32)) [
  | inl space ↦
      let same : 32 ≡ c = ground arith in
      rw space (ap (λ k. map_option (λ t. k ∷ t) (form_decode plain rest)) same)
  | inr no_space ↦ elim (Bool-cases (is_unreserved c)) [
    | inl stays ↦ rw (no_space, stays, unreserved-plain c stays, unreserved-no_plus c stays) refl
    | inr escaped ↦
        rw (no_space, escaped)
          (ap (λ k. map_option (λ t. k ∷ t) (form_decode plain rest)) (two_digits c h))
  ]
]

-- A reader of the encoding of a text of bytes gets that text back.
pub form_decode-form_urlencode :
    (src : Text) → All (λ c. c < 256) src → form_decode plain (form_urlencode src) ≡ some src
unfolding form_decode
form_decode-form_urlencode [] h = refl
form_decode-form_urlencode (c ∷ src) (h, hs) =
    rw (decode-encode_character c (form_urlencode src) h, form_decode-form_urlencode src hs) refl
