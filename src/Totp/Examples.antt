-- ===== src/Totp/Examples.antt =====
-- Totp.hpp: runs with a digest of the example of RFC 4226.
use collab_vm_server.Base.{
  All, ◌<◌, ◌/◌, ◌-◌, ◌%◌, ℕ, ◌≤◌, ◌≡◌, ◌↔◌, refl, Bool, true, some, List, [], ◌∷◌, arith,
}
use collab_vm_server.Totp.{generate_totp, validate_totp}
use collab_vm_server.Totp.Windows.{hotp, validate_totp-hotp}

-- The digest of section 5.4 of the RFC, whatever is hashed.
abbrev rfc_digest : List ℕ → List ℕ → List ℕ
rfc_digest key message =
    31 ∷ 134 ∷ 152 ∷ 105 ∷ 14 ∷ 2 ∷ 202 ∷ 22 ∷ 97 ∷ 133 ∷ 80 ∷ 239 ∷ 127 ∷ 25 ∷ 218 ∷ 142 ∷ 148 ∷ 91
    ∷ 85 ∷ 90 ∷ []

rfc_code : generate_totp rfc_digest [] 6 30 0 59 ≡ some 872921
unfolding generate_totp
rfc_code = refl

-- The last byte of what is hashed.
abbrev low : List ℕ → ℕ
low [] = 0
low (b ∷ []) = b % 256
low (b ∷ c ∷ bs) = low (c ∷ bs)

low-lt : (bs : List ℕ) → low bs < 256
low-lt [] = omega arith
low-lt (b ∷ []) = omega arith
low-lt (b ∷ c ∷ bs) = low-lt (c ∷ bs)

-- A digest that depends on what is hashed.
abbrev toy_hmac : List ℕ → List ℕ → List ℕ
toy_hmac key message =
    0 ∷ 0 ∷ 0 ∷ low message ∷ 9 ∷ 0 ∷ 0 ∷ 0 ∷ 0 ∷ 0 ∷ 0 ∷ 0 ∷ 0 ∷ 0 ∷ 0 ∷ 0 ∷ 0 ∷ 0 ∷ 0 ∷ 0 ∷ []

toy_bytes : (key message : List ℕ) → All (λ (x : ℕ). x < 256) (toy_hmac key message)
toy_bytes key message = (
  omega arith,
  (
    omega arith,
    (
      omega arith,
      (
        low-lt message,
        (
          omega arith,
          (
            omega arith,
            (
              omega arith,
              (
                omega arith,
                (
                  omega arith,
                  (
                    omega arith,
                    (
                      omega arith,
                      (
                        omega arith,
                        (
                          omega arith,
                          (
                            omega arith,
                            (
                              omega arith,
                              (
                                omega arith,
                                (omega arith, (omega arith, (omega arith, (omega arith, tt)))),
                              ),
                            ),
                          ),
                        ),
                      ),
                    ),
                  ),
                ),
              ),
            ),
          ),
        ),
      ),
    ),
  ),
)

-- The code of the step before the present one.
toy_code : hotp toy_hmac [] 6 (59 / 30 - 1) ≡ some 0
toy_code = refl

validate_totp-hotp_example :
    (b : Bool) × (validate_totp toy_hmac 1 [] 6 30 1 59 ≡ some b)
    × ((b ≡ true) ↔ ((k : ℕ) × (k ≤ 1) × (hotp toy_hmac [] 6 (59 / 30 - k) ≡ some 1)))
validate_totp-hotp_example =
    validate_totp-hotp toy_hmac (λ k m. refl) toy_bytes 1 [] 6 30 1 59 (omega arith) (omega arith)
      (omega arith) (omega arith)
