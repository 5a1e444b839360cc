-- ===== src/Totp/Windows.antt =====
-- Totp.hpp: the codes against RFC 4226 and RFC 6238, and the window of times that are accepted.
use collab_vm_server.Base.{
  ℕ, zero, suc, ◌+◌, ◌-◌, ◌*◌, ◌/◌, ◌%◌, ◌^◌, ◌<◌, ◌≤◌, ◌≡◌, ◌↔◌, sym, ap, ◌∙◌, Bool, true, Option,
  some, List, [], ◌∷◌, length, All, get_elem?, ◌>>=◌, lt→ltb, ltb, ◌&&◌, if◌then◌else◌, none, arith,
}
use collab_vm_server.Totp.{
  sha_digest_length, read_int, native_to_big, timer, generate_totp, validate_totp,
}
use collab_vm_server.Totp.Codes.{get_elem?-lt, power_lt, any_window-InWindow}

-- The `n` low bytes of a number, the high one first.
abbrev pub bytes_of : ℕ → ℕ → List ℕ
bytes_of zero x = []
bytes_of (suc n) x = ((x / 256 ^ n) % 256) ∷ bytes_of n x

-- The dynamic truncation of RFC 4226: four bytes from the place that the last byte names, without the
-- sign.
abbrev pub truncate : List ℕ → Option ℕ
truncate digest = get_elem? digest 19 >>= λ last.
    let offset = last % 16 in
    get_elem? digest offset >>= λ b0. get_elem? digest (offset + 1) >>= λ b1.
    get_elem? digest (offset + 2) >>= λ b2.
    get_elem? digest (offset + 3) >>= λ b3. some (b0 % 128 * 2 ^ 24 + b1 * 2 ^ 16 + b2 * 2 ^ 8 + b3)

-- The code of a counter (HOTP).
abbrev pub hotp : (List ℕ → List ℕ → List ℕ) → List ℕ → ℕ → ℕ → Option ℕ
hotp hmac key digits counter =
    truncate (hmac key (bytes_of 8 counter)) >>= λ n. some (n % 10 ^ digits)

native_to_big-bytes_of : (n : ℕ) → native_to_big n ≡ bytes_of 8 n
native_to_big-bytes_of n =
    let same : n ≡ n / 1 = omega arith in
    ap
      (λ (x : ℕ).
        ((n / 2 ^ 56) % 256)
        ∷ ((n / 2 ^ 48) % 256)
        ∷ ((n / 2 ^ 40) % 256)
        ∷ ((n / 2 ^ 32) % 256)
        ∷ ((n / 2 ^ 24) % 256)
        ∷ ((n / 2 ^ 16) % 256)
        ∷ ((n / 2 ^ 8) % 256)
        ∷ (x % 256)
        ∷ [])
      same

-- Every element of a list of bytes is a byte.
byte_at :
    (bytes : List ℕ) (i b : ℕ)
    → All (λ (x : ℕ). x < 256) bytes
    → get_elem? bytes i ≡ some b
    → b < 256
byte_at [] i b h e = absurd (cc)
byte_at (x ∷ bytes) zero b h e = ground (arith, h.0, e)
byte_at (x ∷ bytes) (suc i) b h e = byte_at bytes i b h.1 e

wrapped : (c w : ℕ) → w ≤ c → c < 2 ^ 64 → (c + 2 ^ 64 - w) % 2 ^ 64 ≡ c - w
wrapped c w p q = omega arith

-- The bits below the sign.
low_bits :
    (b0 b1 b2 b3 : ℕ)
    → b1 < 256
    → b2 < 256
    → b3 < 256
    → (((b0 * 256 + b1) * 256 + b2) * 256 + b3) % 2 ^ 31
      ≡ b0 % 128 * 2 ^ 24 + b1 * 2 ^ 16 + b2 * 2 ^ 8 + b3
low_bits b0 b1 b2 b3 h1 h2 h3 = omega arith

module _ (hmac : List ℕ → List ℕ → List ℕ)
    (is_sha : (k m : List ℕ) → length (hmac k m) ≡ sha_digest_length)
    (is_bytes : (k m : List ℕ) → All (λ (x : ℕ). x < 256) (hmac k m)) where
  -- What `GenerateTotp` does with the bytes of the timer.
  abbrev from_timer : List ℕ → ℕ → ℕ → List ℕ → Option ℕ
  from_timer key digits time_step m = get_elem? (hmac key m) (sha_digest_length - 1) >>= λ last.
      read_int (hmac key m) (last % 2 ^ 4) >>= λ binary.
      if ltb 0 time_step && ltb (10 ^ digits) (2 ^ 31)
      then some ((binary % 2 ^ 31) % 10 ^ digits)
      else none

  -- `GenerateTotp` is the code of the time step that many windows before the timestamp's.
  generate_totp-hotp :
      (key : List ℕ) (digits time_step time_window timestamp : ℕ)
      → 0 < time_step
      → digits < 10
      → time_window ≤ timestamp / time_step
      → timestamp / time_step < 2 ^ 64
      → generate_totp hmac key digits time_step time_window timestamp
        ≡ hotp hmac key digits (timestamp / time_step - time_window)
  unfolding generate_totp
  generate_totp-hotp key digits time_step time_window timestamp hs h past small =
      let c = timestamp / time_step in
      let m = bytes_of 8 (c - time_window) in
      let same : timer hmac time_step time_window timestamp ≡ m =
        ap native_to_big (wrapped c time_window past small)
        ∙ native_to_big-bytes_of (c - time_window) in
      let (last, e) = get_elem?-lt (hmac key m) 19 (omega (arith, is_sha key m)) in
      let o = last % 16 in
      let (b0, e0) = get_elem?-lt (hmac key m) o (omega (arith, is_sha key m)) in
      let (b1, e1) = get_elem?-lt (hmac key m) (o + 1) (omega (arith, is_sha key m)) in
      let (b2, e2) = get_elem?-lt (hmac key m) (o + 2) (omega (arith, is_sha key m)) in
      let (b3, e3) = get_elem?-lt (hmac key m) (o + 3) (omega (arith, is_sha key m)) in
      let value =
        low_bits b0 b1 b2 b3 (byte_at (hmac key m) (o + 1) b1 (is_bytes key m) e1)
          (byte_at (hmac key m) (o + 2) b2 (is_bytes key m) e2)
          (byte_at (hmac key m) (o + 3) b3 (is_bytes key m) e3) in
      ap (from_timer key digits time_step) same
      ∙ rw (e, e0, e1, e2, e3, lt→ltb 0 time_step hs, power_lt digits h)
          (ap (λ (n : ℕ). some (n % 10 ^ digits)) value)

  -- With an HMAC of twenty bytes, a time step that is not zero, less than ten digits, and at least
  -- `time_window` time steps since the epoch, the validation never faults, and it accepts an input exactly
  -- when it is the code that RFC 4226 gives to the present time step or to one of the `time_window` time
  -- steps before it.
  pub validate_totp-hotp :
      (input : ℕ) (key : List ℕ) (digits time_step time_window now : ℕ)
      → 0 < time_step
      → digits < 10
      → time_window ≤ now / time_step
      → now / time_step < 2 ^ 64
      → (b : Bool) × (validate_totp hmac input key digits time_step time_window now ≡ some b)
        × ((b ≡ true) ↔ (
            (k : ℕ) × (k ≤ time_window)
            × (hotp hmac key digits (now / time_step - k) ≡ some input)))
  unfolding validate_totp
  validate_totp-hotp input key digits time_step time_window now hs h past small =
      let (b, e, meets) =
        any_window-InWindow hmac is_sha input key digits time_step now hs h 0 (time_window + 1) in
      (
        b,
        e,
        (
          λ t.
              let (k, a, c, p) = meets.0 t in
              (
                k,
                omega (arith, c),
                sym (
                      generate_totp-hotp key digits time_step k now hs h (omega (arith, c, past))
                        small)
                    ∙ p,
              ),
          λ (k, a, p). meets.1 (
            k,
            omega arith,
            omega (arith, a),
            generate_totp-hotp key digits time_step k now hs h (omega (arith, a, past)) small ∙ p,
          ),
        ),
      )
