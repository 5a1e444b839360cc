-- ===== src/Guests.antt =====
-- CollabVmServer.hpp and CaseInsensitiveUtils.hpp: the names of the clients and the map of the guests.
-- A socket is a number. Boost's case folding, `std::to_string`, `ValidateUsername` and the limits of
-- Common are arguments. The change of a name in the channels is `Channel.update_username`.
pub mod Names
pub mod Registered
pub mod Unique
pub mod Connections
mod Examples
use collab_vm_server.Base.{
  ℕ, zero, suc, ◌+◌, ◌-◌, ◌%◌, ◌^◌, Bool, true, false, not, ◌&&◌, ◌||◌, Option, none, some, List,
  [], ◌∷◌, ◌++◌, length, map, ltb, ◌==◌, update, is_empty, if◌then◌else◌, ◌>>=◌,
}
use collab_vm_server.Message.{Text, text_eq}

pub record Client : Type 0 where
  pub username : Text
  pub is_logged_in : Bool
  pub is_captcha_required : Bool
  pub last_username_change : ℕ

pub record Guests : Type 0 where
  pub guests : List (Text × ℕ)
  pub clients : ℕ → Client
  -- The clients that were told that a name is taken.
  pub refusals : List ℕ

abbrev pub set_user_data : ℕ → Text → Guests → Guests
set_user_data c name s = record s {
  clients = update s.clients c (record (s.clients c) { username = name });
}

module _ (to_upper : ℕ → ℕ) where
  -- `iequals`.
  abbrev pub same_name : Text → Text → Bool
  same_name x y = text_eq (map to_upper x) (map to_upper y)

  abbrev pub find_guest : Text → List (Text × ℕ) → Option ℕ
  find_guest name [] = none
  find_guest name ((n, c) ∷ gs) =
      let rest = find_guest name gs in if same_name n name then some c else rest

  abbrev pub erase_guest : Text → List (Text × ℕ) → List (Text × ℕ)
  erase_guest name [] = []
  erase_guest name ((n, c) ∷ gs) =
      let rest = erase_guest name gs in if same_name n name then rest else (n, c) ∷ rest

  -- The guest part of `OnDisconnect`. The name is moved out of the client.
  unfoldable pub on_disconnect : ℕ → Guests → Guests
  on_disconnect c s =
      let name = (s.clients c).username in
      if is_empty name
      then s
      else set_user_data c [] (record s { guests = erase_guest name s.guests })

  module _ (is_valid : Text → Bool) (rate_limit : ℕ) where
    unfoldable pub change_username : ℕ → ℕ → Text → Guests → Guests
    change_username now c new_username s =
        let client = s.clients c in
        if client.is_captcha_required
        then s
        else if client.is_logged_in
        then s
        else if ltb (now - client.last_username_change) rate_limit
        then s
        else if not (is_valid new_username)
        then s
        else if text_eq client.username new_username
        then s
        else elim (find_guest new_username s.guests) [
          | some taken ↦ record s { refusals = s.refusals ++ c ∷ [] }
          | none ↦ set_user_data c new_username (record s {
            guests = erase_guest client.username (s.guests ++ (new_username, c) ∷ []);
          })
        ]

  module _ (guest_name : ℕ → Text) where
    -- The loop of `GenerateUsername`; `guest_name n` is "guest" with the digits of the number.
    abbrev pub free_number : ℕ → ℕ → List (Text × ℕ) → Option ℕ
    free_number zero num gs = none
    free_number (suc fuel) num gs =
        let rest = free_number fuel ((num + 1) % 2 ^ 32) gs in
        elim (find_guest (guest_name num) gs) [ none ↦ some num | some taken ↦ rest ]

    unfoldable pub generate_username : ℕ → ℕ → ℕ → Guests → Option Guests
    generate_username fuel num c s = free_number fuel num s.guests >>= λ n.
        some (
          set_user_data c (guest_name n) (record s { guests = s.guests ++ (guest_name n, c) ∷ [] }))

-- A client that logs in. Its name as a guest stays in the map.
abbrev pub log_in : ℕ → Text → Guests → Guests
log_in c name s = record s {
  clients = update s.clients c (record (s.clients c) { is_logged_in = true; username = name });
}

-- The connections of one address, as far as they count: `IPData::connections`.
pub record IpData : Type 0 where
  pub connections : ℕ

-- `OnPreConnect`: whether the socket may go on.
unfoldable pub on_pre_connect : Bool → ℕ → IpData → Bool × IpData
on_pre_connect max_connections_enabled max_connections a =
    if not max_connections_enabled
    then (true, a)
    else (let n = (a.connections + 1) % 2 ^ 8 in
        (not (ltb max_connections n), record { connections = n }))

-- The address part of `OnDisconnect`.
unfoldable pub leave_address : IpData → IpData
leave_address a = if ltb 0 a.connections then record { connections = a.connections - 1 } else a
