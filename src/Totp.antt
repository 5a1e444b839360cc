-- ===== src/Totp.antt =====
-- Totp.hpp: one-time passwords. OpenSSL's HMAC with SHA-1 is an argument, a function of the key and the
-- bytes of the timer. Times are whole seconds. `none` is a fault: a read past the digest, a time
-- step of zero, a modulus that does not fit an int. The host is little-endian, so that the reversed int is the big-endian one.
pub mod Codes
pub mod Windows
mod Examples
use collab_vm_server.Base.{
  ℕ, zero, suc, ◌+◌, ◌-◌, ◌*◌, ◌/◌, ◌%◌, ◌^◌, Bool, true, false, Option, none, some, List, [], ◌∷◌,
  ◌++◌, get_elem?, ltb, ◌==◌, if◌then◌else◌, ◌&&◌, ◌>>=◌,
}
use collab_vm_server.Message.{Text}

abbrev pub sha_digest_length : ℕ
sha_digest_length = 20

-- The bytes of a 64-bit number, the high one first.
abbrev pub native_to_big : ℕ → List ℕ
native_to_big n =
    ((n / 2 ^ 56) % 256)
    ∷ ((n / 2 ^ 48) % 256)
    ∷ ((n / 2 ^ 40) % 256)
    ∷ ((n / 2 ^ 32) % 256)
    ∷ ((n / 2 ^ 24) % 256)
    ∷ ((n / 2 ^ 16) % 256)
    ∷ ((n / 2 ^ 8) % 256)
    ∷ (n % 256)
    ∷ []

-- The four bytes from `offset` on as an int.
abbrev pub read_int : List ℕ → ℕ → Option ℕ
read_int digest offset = get_elem? digest offset >>= λ b0. get_elem? digest (offset + 1) >>= λ b1.
    get_elem? digest (offset + 2) >>= λ b2.
    get_elem? digest (offset + 3) >>= λ b3. some (((b0 * 256 + b1) * 256 + b2) * 256 + b3)

module _ (hmac : List ℕ → List ℕ → List ℕ) where
  abbrev pub timer : ℕ → ℕ → ℕ → List ℕ
  timer time_step time_window timestamp =
      native_to_big ((timestamp / time_step + 2 ^ 64 - time_window) % 2 ^ 64)

  unfoldable pub generate_totp : List ℕ → ℕ → ℕ → ℕ → ℕ → Option ℕ
  generate_totp key digits time_step time_window timestamp =
      let digest = hmac key (timer time_step time_window timestamp) in
      get_elem? digest (sha_digest_length - 1) >>= λ last.
      read_int digest (last % 2 ^ 4) >>= λ binary.
      if ltb 0 time_step && ltb (10 ^ digits) (2 ^ 31)
      then some ((binary % 2 ^ 31) % 10 ^ digits)
      else none

  -- The windows `w`, `w + 1`, ... of which there are `n`, up to the first that gives the input.
  abbrev pub any_window : ℕ → List ℕ → ℕ → ℕ → ℕ → ℕ → ℕ → Option Bool
  any_window input key digits time_step now w zero = some false
  any_window input key digits time_step now w (suc n) =
      let rest = any_window input key digits time_step now (suc w) n in
      generate_totp key digits time_step w now >>= λ code. if code == input then some true else rest

  unfoldable pub validate_totp : ℕ → List ℕ → ℕ → ℕ → ℕ → ℕ → Option Bool
  validate_totp input key digits time_step time_window now =
      any_window input key digits time_step now 0 (time_window + 1)
