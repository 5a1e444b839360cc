-- ===== src/Base/Maps.antt =====
-- Maps from numbers as functions, the Option monad, and the place of a number in a list.
use Prim.Native.Nat.{ℕ, zero, suc}
use mathlib.Core.Path.{◌≡◌, refl}
use mathlib.Core.Option.{Option, none, some}
use mathlib.Core.List.{List, [], ◌∷◌, ◌++◌}
use native.Mathlib.Omega.{arith}
use collab_vm_server.Base.Tests.{◌==◌, if◌then◌else◌}
use collab_vm_server.Base.Lists.{take, drop, length}

infixl 5 ◌>>=◌
abbrev pub ◌>>=◌ {ℓ κ} : {A : Type ℓ} {B : Type κ} → Option A → (A → Option B) → Option B
none >>= f = none
some a >>= f = f a

abbrev pub map_option {ℓ κ} : {A : Type ℓ} {B : Type κ} → (A → B) → Option A → Option B
map_option f none = none
map_option f (some a) = some (f a)

abbrev pub update {ℓ} : {A : Type ℓ} → (ℕ → A) → ℕ → A → ℕ → A
update f k a j = if j == k then a else f j

-- The first index at which a number stands.
abbrev pub index_of : ℕ → List ℕ → Option ℕ
index_of u [] = none
index_of u (x ∷ xs) = if u == x then some 0 else map_option suc (index_of u xs)

-- The list without the first occurrence of a number.
abbrev pub erase : ℕ → List ℕ → List ℕ
erase u [] = []
erase u (x ∷ xs) = if u == x then xs else x ∷ erase u xs

-- No number stands twice.
abbrev pub Distinct : List ℕ → Type 0
Distinct [] = Unit {0}
Distinct (x ∷ xs) = (index_of x xs ≡ none) × Distinct xs

pub index_of-append_absent :
    (u v : ℕ) (xs : List ℕ)
    → index_of u (xs ++ v ∷ [])
      ≡ elim (index_of u xs) [ none ↦ if u == v then some (length xs) else none | some i ↦ some i ]
index_of-append_absent u v [] = refl
index_of-append_absent u v (x ∷ xs) = ground (arith, index_of-append_absent u v xs)

pub Distinct-append_absent :
    (v : ℕ) (xs : List ℕ) → Distinct xs → index_of v xs ≡ none → Distinct (xs ++ v ∷ [])
Distinct-append_absent v [] d h = (refl, tt)
Distinct-append_absent v (x ∷ xs) d h =
    ground (arith, Distinct-append_absent v xs, index_of-append_absent x v xs)

pub index_of-erase_self : (u : ℕ) (xs : List ℕ) → Distinct xs → index_of u (erase u xs) ≡ none
index_of-erase_self u [] d = refl
index_of-erase_self u (x ∷ xs) d = ground (arith, index_of-erase_self u xs)

pub index_of-erase_absent :
    (u v : ℕ) (xs : List ℕ) → index_of v xs ≡ none → index_of v (erase u xs) ≡ none
index_of-erase_absent u v [] h = refl
index_of-erase_absent u v (x ∷ xs) h = ground (arith, index_of-erase_absent u v xs)

pub Distinct-erase : (u : ℕ) (xs : List ℕ) → Distinct xs → Distinct (erase u xs)
Distinct-erase u [] d = tt
Distinct-erase u (x ∷ xs) d = ground (arith, Distinct-erase u xs, index_of-erase_absent u x xs)

-- Erasing by position is erasing by value.
pub take-drop-eq-erase :
    (u p : ℕ) (xs : List ℕ) → index_of u xs ≡ some p → take p xs ++ drop (suc p) xs ≡ erase u xs
take-drop-eq-erase u p [] h = ground arith
take-drop-eq-erase u zero (x ∷ xs) h = ground arith
take-drop-eq-erase u (suc p) (x ∷ xs) h = ground (arith, take-drop-eq-erase u p xs)

pub erase_absent : (u : ℕ) (xs : List ℕ) → index_of u xs ≡ none → erase u xs ≡ xs
erase_absent u [] h = refl
erase_absent u (x ∷ xs) h = ground (arith, erase_absent u xs)

-- Inversion of a step that succeeds.
pub >>=-eq-some {ℓ κ} :
    {A : Type ℓ} {B : Type κ} (m : Option A) (f : A → Option B) {b : B}
    → (m >>= f) ≡ some b
    → (a : A) × (m ≡ some a) × (f a ≡ some b)
>>=-eq-some none f h = cc
>>=-eq-some (some a) f h = (a, refl, h)
