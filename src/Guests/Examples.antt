-- ===== src/Guests/Examples.antt =====
-- CollabVmServer.hpp: two guests.
use collab_vm_server.Base.{
  ℕ, zero, suc, ◌+◌, ◌≤◌, ◌≡◌, ◌≢◌, refl, Bool, true, false, not, none, some, [], ◌∷◌, arith, ap,
  map, ◌==◌, if◌then◌else◌, is_empty, replicate,
}
use collab_vm_server.Message.{Text, text_eq}
use collab_vm_server.Guests.{
  Client, Guests, same_name, find_guest, change_username, generate_username, on_disconnect, log_in,
  on_pre_connect,
}
use collab_vm_server.Guests.Names.{Taken, generate_username_lem}
use collab_vm_server.Guests.Unique.{changes, start, GuestReach-unique}
use collab_vm_server.Guests.Connections.{AddressReach, accepts, refuses, AddressReach-bounds}

-- Upper and lower case of A and a only.
abbrev upper : ℕ → ℕ
upper c = if c == 97 then 65 else c

-- "g" and as many strokes as the number says.
abbrev strokes : ℕ → Text
strokes n = 103 ∷ replicate n 49

abbrev nobody : Client
nobody = record {
  username = [];
  is_logged_in = false;
  is_captcha_required = false;
  last_username_change = 0;
}

abbrev at_start : Guests
at_start = record { guests = []; clients = λ c. nobody; refusals = [] }

abbrev not_empty : Text → Bool
not_empty name = not (is_empty name)

not_nil : (x : ℕ) (xs : Text) → x ∷ xs ≢ []
not_nil x xs = λ e. cc

not_empty-named : (name : Text) → not_empty name ≡ true → name ≢ []
not_empty-named [] h = λ e. cc
not_empty-named (c ∷ name) h = not_nil c name

-- The first client takes the name a, the second b.
abbrev first_named : Guests
first_named = change_username upper not_empty 5 9 0 (97 ∷ []) at_start

abbrev both_named : Guests
both_named = change_username upper not_empty 5 9 1 (98 ∷ []) first_named

GuestReach-unique_example :
    same_name upper (both_named.clients 0).username (both_named.clients 1).username ≡ false
unfolding change_username
GuestReach-unique_example =
    GuestReach-unique upper not_empty 5 strokes not_empty-named both_named
      (changes 9 1 (98 ∷ []) (changes 9 0 (97 ∷ []) (start (λ c. nobody) (λ c. refl)))) 0 1
      (refl, not_nil 97 []) (refl, not_nil 98 []) (λ e. absurd (omega (arith, e)))

strokes-distinct :
    (m n : ℕ) → text_eq (map upper (replicate m 49)) (map upper (replicate n 49)) ≡ true → m ≡ n
strokes-distinct zero zero h = refl
strokes-distinct zero (suc n) h = absurd (cc)
strokes-distinct (suc m) zero h = absurd (cc)
strokes-distinct (suc m) (suc n) h = ap suc (strokes-distinct m n h)

-- The number 2 is taken.
abbrev one_guest : Guests
one_guest = record at_start {
  guests = (strokes 2, 0) ∷ [];
  clients = λ c. if c == 0 then record nobody { username = strokes 2 } else nobody;
}

generate_username_lem_example :
    (j : ℕ) × (s' : Guests) × (generate_username upper strokes 2 2 1 one_guest ≡ some s')
    × (2 ≤ j)
    × (find_guest upper (strokes j) one_guest.guests ≡ none)
    × Taken upper strokes 2 j one_guest.guests
    × ((s'.clients 1).username ≡ strokes j)
    × (find_guest upper (strokes j) s'.guests ≡ some 1)
generate_username_lem_example =
    generate_username_lem upper strokes strokes-distinct 2 1 one_guest (omega arith)

-- A client with an account leaves: the entry of a guest with its name goes, and another guest takes it.
abbrev after_departure : Guests
after_departure = on_disconnect upper 2 (log_in 2 (65 ∷ []) first_named)

name_taken_twice :
    same_name upper
      ((change_username upper not_empty 5 9 1 (65 ∷ []) after_departure).clients 0).username
      ((change_username upper not_empty 5 9 1 (65 ∷ []) after_departure).clients 1).username
    ≡ true
unfolding change_username on_disconnect
name_taken_twice = refl

-- A limit of one: the second socket is refused.
AddressReach-bounds_example : (2 ≡ 1 + 1) × (1 ≤ 1)
unfolding on_pre_connect
AddressReach-bounds_example =
    AddressReach-bounds 1 1 1 (record { connections = 2 })
      (refuses (accepts AddressReach.start (omega arith) refl) (omega arith) refl)
