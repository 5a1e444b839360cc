-- ===== src/Totp/Codes.antt =====
-- Totp.hpp: the codes and the window of times that are accepted.
use collab_vm_server.Base.{
  ℕ, zero, suc, ◌+◌, ◌-◌, ◌*◌, ◌%◌, ◌^◌, ◌<◌, ◌≤◌, ◌≡◌, ◌↔◌, refl, sym, ap, ◌∙◌, Bool, true, false,
  some, List, [], ◌∷◌, length, get_elem?, ltb, lt→ltb, ◌==◌, Bool-cases, inl, inr, arith,
}
use collab_vm_server.Totp.{sha_digest_length, read_int, timer, generate_totp, any_window}

pub get_elem?-lt : (xs : List ℕ) (i : ℕ) → i < length xs → (x : ℕ) × (get_elem? xs i ≡ some x)
get_elem?-lt [] i h = absurd (omega (arith, h))
get_elem?-lt (x ∷ xs) zero h = (x, refl)
get_elem?-lt (x ∷ xs) (suc i) h = get_elem?-lt xs i (omega arith)

read_int-lt :
    (digest : List ℕ) (offset : ℕ)
    → offset + 4 ≤ length digest
    → (n : ℕ) × (read_int digest offset ≡ some n)
read_int-lt digest offset h =
    let (b0, e0) = get_elem?-lt digest offset (omega arith) in
    let (b1, e1) = get_elem?-lt digest (offset + 1) (omega arith) in
    let (b2, e2) = get_elem?-lt digest (offset + 2) (omega arith) in
    let (b3, e3) = get_elem?-lt digest (offset + 3) (omega arith) in
    (((b0 * 256 + b1) * 256 + b2) * 256 + b3, rw (e0, e1, e2, e3) refl)

mod-lt : (a p : ℕ) → 0 < p → a % p < p
mod-lt a p h = omega arith

power_pos : (digits : ℕ) → 0 < 10 ^ digits
power_pos zero = omega arith
power_pos (suc digits) = omega (arith, power_pos digits)

power_le : (digits n : ℕ) → digits ≤ n → 10 ^ digits ≤ 10 ^ n
power_le zero n h = power_pos n
power_le (suc digits) zero h = absurd (omega (arith, h))
power_le (suc digits) (suc n) h = omega (arith, power_le digits n (omega arith))

pub power_lt : (digits : ℕ) → digits < 10 → ltb (10 ^ digits) (2 ^ 31) ≡ true
power_lt digits h = ground (arith, power_le digits 9 (omega arith))

module _ (hmac : List ℕ → List ℕ → List ℕ)
    (is_sha : (k m : List ℕ) → length (hmac k m) ≡ sha_digest_length) where
  -- With an HMAC of twenty bytes, a time step that is not zero and less than ten digits, a code is
  -- generated for every key and time: no read leaves the digest, and the code has at most that many
  -- digits.
  pub generate_totp-lt :
      (key : List ℕ) (digits time_step time_window timestamp : ℕ)
      → 0 < time_step
      → digits < 10
      → (code : ℕ) × (generate_totp hmac key digits time_step time_window timestamp ≡ some code)
        × (code < 10 ^ digits)
  unfolding generate_totp
  generate_totp-lt key digits time_step time_window timestamp hs h =
      let m = timer hmac time_step time_window timestamp in
      let (last, e) =
        get_elem?-lt (hmac key m) (sha_digest_length - 1) (omega (arith, is_sha key m)) in
      let (binary, q) = read_int-lt (hmac key m) (last % 2 ^ 4) (omega (arith, is_sha key m)) in
      (
        (binary % 2 ^ 31) % 10 ^ digits,
        rw (e, q, lt→ltb 0 time_step hs, power_lt digits h) refl,
        mod-lt (binary % 2 ^ 31) (10 ^ digits) (power_pos digits),
      )

  -- The input is the code of one of the windows from `w` on.
  abbrev pub InWindow : ℕ → List ℕ → ℕ → ℕ → ℕ → ℕ → ℕ → Type 0
  InWindow input key digits time_step now w n =
      ((k : ℕ) × (w ≤ k)
        × (k < w + n)
        × (generate_totp hmac key digits time_step k now ≡ some input))

  pub any_window-InWindow :
      (input : ℕ) (key : List ℕ) (digits time_step now : ℕ)
      → 0 < time_step
      → digits < 10
      → (w n : ℕ)
      → (b : Bool) × (any_window hmac input key digits time_step now w n ≡ some b)
        × ((b ≡ true) ↔ InWindow input key digits time_step now w n)
  any_window-InWindow input key digits time_step now hs h w zero =
      (false, refl, (λ e. absurd (cc), λ (k, a, b, q). absurd (omega (arith, a, b))))
  any_window-InWindow input key digits time_step now hs h w (suc n) =
      let (code, e, l) = generate_totp-lt key digits time_step w now hs h in
      elim (Bool-cases (code == input)) [
        | inl same ↦
            let same_code : code ≡ input = ground arith in
            (
              true,
              rw (e, same) refl,
              (λ t. (w, omega arith, omega arith, e ∙ ap some same_code), λ x. refl),
            )
        | inr other ↦
            let (b, q, meets) = any_window-InWindow input key digits time_step now hs h (suc w) n in
            (
              b,
              rw (e, other) q,
              (
                λ t. let (k, a, c, p) = meets.0 t in (k, omega (arith, a), omega (arith, c), p),
                λ (k, a, c, p). elim (Bool-cases (k == w)) [
                  | inl here ↦ absurd (differ code k e other p here)
                  | inr later ↦ meets.1 (k, ground arith, omega (arith, c), p)
                ],
              ),
            )
      ]
    where
      differ :
          (code k : ℕ)
          → generate_totp hmac key digits time_step w now ≡ some code
          → (code == input) ≡ false
          → generate_totp hmac key digits time_step k now ≡ some input
          → (k == w) ≡ true
          → ⊥
      differ code k e other p here =
          let at_w : k ≡ w = ground arith in
          let same : some code ≡ some input =
            sym e ∙ ap (λ i. generate_totp hmac key digits time_step i now) (sym at_w) ∙ p in
          let equal : code ≡ input = cc in ground arith
