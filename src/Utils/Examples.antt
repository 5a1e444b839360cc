-- ===== src/Utils/Examples.antt =====
-- Utils.hpp: runs.
use collab_vm_server.Base.{some, [], ◌∷◌, ◌≡◌, refl, arith}
use collab_vm_server.Utils.{form_urlencode}
use collab_vm_server.Utils.Decoding.{plain, form_decode, form_decode-form_urlencode}

-- A letter, a space, a percent sign and a byte above 127.
form_decode-form_urlencode_example :
    form_decode plain (form_urlencode (97 ∷ 32 ∷ 37 ∷ 233 ∷ [])) ≡ some (97 ∷ 32 ∷ 37 ∷ 233 ∷ [])
form_decode-form_urlencode_example =
    form_decode-form_urlencode (97 ∷ 32 ∷ 37 ∷ 233 ∷ [])
      (omega arith, (omega arith, (omega arith, (omega arith, tt))))

two_bytes : form_urlencode (32 ∷ 233 ∷ []) ≡ 43 ∷ 37 ∷ 69 ∷ 57 ∷ []
two_bytes = refl
