-- ===== src/Guests/Unique.antt =====
-- CollabVmServer.hpp: no two guests have the same name.
use collab_vm_server.Base.{ℕ, ◌≡◌, ◌≢◌, Bool, true, false, some, []}
use collab_vm_server.Message.{Text}
use collab_vm_server.Guests.{
  Client, Guests, same_name, on_disconnect, change_username, generate_username, log_in,
}
use collab_vm_server.Guests.Registered.{
  IsGuest, Registered, Registered-unique, on_disconnect-Registered, log_in-Registered,
  change_username-Registered, generate_username-Registered,
}

module _ (to_upper : ℕ → ℕ) where
  module _ (is_valid : Text → Bool) (rate_limit : ℕ) (guest_name : ℕ → Text) where
    -- The states of a server. A client that has logged in stays.
    pub data GuestReach : Guests → Type 0 where
      start :
          (clients : ℕ → Client)
          → ((c : ℕ) → (clients c).username ≡ [])
          → GuestReach (record { guests = []; clients = clients; refusals = [] })
      generates :
          (fuel num c : ℕ) {s s' : Guests}
          → GuestReach s
          → generate_username to_upper guest_name fuel num c s ≡ some s'
          → GuestReach s'
      changes :
          (now c : ℕ) (name : Text) {s : Guests}
          → GuestReach s
          → GuestReach (change_username to_upper is_valid rate_limit now c name s)
      logs_in : (c : ℕ) (name : Text) {s : Guests} → GuestReach s → GuestReach (log_in c name s)
      leaves :
          (c : ℕ) {s : Guests}
          → GuestReach s
          → (s.clients c).is_logged_in ≡ false
          → GuestReach (on_disconnect to_upper c s)

    GuestReach-Registered :
        ((name : Text) → is_valid name ≡ true → name ≢ [])
        → {s : Guests} → GuestReach s
        → Registered to_upper s
    GuestReach-Registered named (start clients none_named) =
        λ c (out, name). absurd (name (none_named c))
    GuestReach-Registered named (generates fuel num c {s} {s'} g h) =
        generate_username-Registered to_upper guest_name fuel num c s s'
          (GuestReach-Registered named g) h
    GuestReach-Registered named (changes now c name {s} g) =
        change_username-Registered to_upper is_valid named rate_limit now c name s
          (GuestReach-Registered named g)
    GuestReach-Registered named (logs_in c name {s} g) =
        log_in-Registered to_upper s c name (GuestReach-Registered named g)
    GuestReach-Registered named (leaves c {s} g out) =
        on_disconnect-Registered to_upper s c (GuestReach-Registered named g) out

    -- When no valid name is empty: in every state that new guest names, changes of names, logins and the
    -- departure of guests can bring a new server to, two clients without an account that have names have
    -- different ones, in whatever case they are written.
    pub GuestReach-unique :
        ((name : Text) → is_valid name ≡ true → name ≢ [])
        → (s : Guests) → GuestReach s
        → (c d : ℕ) → IsGuest c s
        → IsGuest d s
        → c ≢ d
        → same_name to_upper (s.clients c).username (s.clients d).username ≡ false
    GuestReach-unique named s g c d gc gd differ =
        Registered-unique to_upper s c d (GuestReach-Registered named g) gc gd differ
