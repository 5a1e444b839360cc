-- ===== src/VmList/Resizable.antt =====
-- CollabVmServer.hpp (`ResizableList`): a list in a message; each change makes a new message.
use collab_vm_server.Base.{
  ℕ, ◌-◌, ◌==◌, Bool, Option, none, some, List, [], ◌∷◌, ◌++◌, length, leb, ltb, replicate,
  if◌then◌else◌, ◌≡◌, arith, ◌&&◌, ◌+◌,
}

module _ {A : Type 0} where
  abbrev pub add_element : A → List A → List A
  add_element x xs = xs ++ x ∷ []

  -- The elements that are copied.
  abbrev pub remove_copy_if : (A → Bool) → List A → List A
  remove_copy_if predicate [] = []
  remove_copy_if predicate (x ∷ xs) =
      let rest = remove_copy_if predicate xs in if predicate x then rest else x ∷ rest

  -- They have to fill a list that is one shorter.
  abbrev pub remove_first : (A → Bool) → List A → Option (List A)
  remove_first predicate xs =
      let copied = remove_copy_if predicate xs in
      if ltb 0 (length xs) && (length copied == length xs - 1) then some copied else none

  abbrev pub update_element : (A → Bool) → A → List A → List A
  update_element predicate new [] = []
  update_element predicate new (x ∷ xs) =
      (if predicate x then new else x) ∷ update_element predicate new xs

  -- A list of `capacity` blank elements of which the first ones are set.
  unfoldable pub fill : A → ℕ → List A → Option (List A)
  fill blank capacity xs =
      if leb (length xs) capacity then some (xs ++ replicate (capacity - length xs) blank) else none

  -- An element that may be there, before others.
  abbrev pub cons_option : Option A → List A → List A
  cons_option none xs = xs
  cons_option (some x) xs = x ∷ xs

  abbrev pub option_size : Option A → ℕ
  option_size none = 0
  option_size (some x) = 1

  pub length-cons_option :
      (o : Option A) (xs : List A) → length (cons_option o xs) ≡ option_size o + length xs
  length-cons_option none xs = omega arith
  length-cons_option (some x) xs = omega arith
