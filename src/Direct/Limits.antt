-- ===== src/Direct/Limits.antt =====
-- CollabVmServer.hpp: the private rooms of a client: their number and their ids.
use collab_vm_server.Base.{
  ℕ, ◌+◌, ◌%◌, ◌^◌, ◌<◌, ◌≤◌, ◌≡◌, refl, sym, ap, subst, fun_ext, false, none, List, [], ◌∷◌, ◌++◌,
  map, ◌==◌, ==_refl, leb, update, length, arith, Bool-cases, inl, inr, All, index_of, Distinct,
  Distinct-append_absent, length-append,
}
use collab_vm_server.Direct.{
  Room, Client, Chats, set_rooms, next_id, find_room, emplace, set_peer_id, erase_room, max_rooms,
}

abbrev pub ids : List (ℕ × Room) → List ℕ
ids rooms = map (λ e. e.0) rooms

-- At most ten rooms, with different ids that have been given out.
abbrev pub Limited : Client → Type 0
Limited k =
    (length k.chat_rooms ≤ max_rooms)
    × Distinct (ids k.chat_rooms)
    × All (λ (e : ℕ × Room). e.0 < k.chat_rooms_id) k.chat_rooms

abbrev pub DirectInv : Chats → Type 0
DirectInv s = (c : ℕ) → Limited (s.clients c)

-- The next id of a client does not wrap.
abbrev pub Unwrapped : ℕ → Chats → Type 0
Unwrapped c s = (s.clients c).chat_rooms_id + 1 < 2 ^ 32

pub find_room-below :
    (n : ℕ) (rooms : List (ℕ × Room))
    → All (λ (e : ℕ × Room). e.0 < n) rooms
    → find_room n rooms ≡ none
find_room-below n [] b = refl
find_room-below n ((j, r) ∷ rooms) b = ground (arith, find_room-below n rooms)

index_of-below :
    (n : ℕ) (rooms : List (ℕ × Room))
    → All (λ (e : ℕ × Room). e.0 < n) rooms
    → index_of n (ids rooms) ≡ none
index_of-below n [] b = refl
index_of-below n ((j, r) ∷ rooms) b = ground (arith, index_of-below n rooms)

ids-append :
    (rooms : List (ℕ × Room)) (e : ℕ × Room) → ids (rooms ++ e ∷ []) ≡ ids rooms ++ e.0 ∷ []
ids-append [] e = refl
ids-append (f ∷ rooms) e = ap (λ (l : List ℕ). f.0 ∷ l) (ids-append rooms e)

below-append :
    (n : ℕ) (r : Room) (rooms : List (ℕ × Room))
    → All (λ (e : ℕ × Room). e.0 < n) rooms
    → All (λ (e : ℕ × Room). e.0 < n + 1) (rooms ++ (n, r) ∷ [])
below-append n r [] b = (omega arith, tt)
below-append n r ((j, q) ∷ rooms) b = (omega (arith, b.0), below-append n r rooms b.1)

ids-set_peer_id : (id p : ℕ) (rooms : List (ℕ × Room)) → ids (set_peer_id id p rooms) ≡ ids rooms
ids-set_peer_id id p [] = refl
ids-set_peer_id id p ((j, r) ∷ rooms) = ap (λ (l : List ℕ). j ∷ l) (ids-set_peer_id id p rooms)

length-set_peer_id :
    (id p : ℕ) (rooms : List (ℕ × Room)) → length (set_peer_id id p rooms) ≡ length rooms
length-set_peer_id id p [] = refl
length-set_peer_id id p ((j, r) ∷ rooms) = omega (arith, length-set_peer_id id p rooms)

below-set_peer_id :
    (n id p : ℕ) (rooms : List (ℕ × Room))
    → All (λ (e : ℕ × Room). e.0 < n) rooms
    → All (λ (e : ℕ × Room). e.0 < n) (set_peer_id id p rooms)
below-set_peer_id n id p [] b = tt
below-set_peer_id n id p ((j, r) ∷ rooms) b = (b.0, below-set_peer_id n id p rooms b.1)

length-erase_room : (id : ℕ) (rooms : List (ℕ × Room)) → length (erase_room id rooms) ≤ length rooms
length-erase_room id [] = omega arith
length-erase_room id ((j, r) ∷ rooms) = ground (arith, length-erase_room id rooms)

below-erase_room :
    (n id : ℕ) (rooms : List (ℕ × Room))
    → All (λ (e : ℕ × Room). e.0 < n) rooms
    → All (λ (e : ℕ × Room). e.0 < n) (erase_room id rooms)
below-erase_room n id [] b = tt
below-erase_room n id ((j, r) ∷ rooms) b = ground (arith, below-erase_room n id rooms)

index_of-erase_room :
    (k id : ℕ) (rooms : List (ℕ × Room))
    → index_of k (ids rooms) ≡ none
    → index_of k (ids (erase_room id rooms)) ≡ none
index_of-erase_room k id [] h = refl
index_of-erase_room k id ((j, r) ∷ rooms) h = ground (arith, index_of-erase_room k id rooms)

Distinct-erase_room :
    (id : ℕ) (rooms : List (ℕ × Room)) → Distinct (ids rooms) → Distinct (ids (erase_room id rooms))
Distinct-erase_room id [] d = tt
Distinct-erase_room id ((j, r) ∷ rooms) d =
    ground (arith, Distinct-erase_room id rooms, index_of-erase_room j id rooms)

pub set_client-Inv :
    (c : ℕ) (k : Client) (s : Chats)
    → Limited k
    → DirectInv s
    → DirectInv (record s { clients = update s.clients c k })
set_client-Inv c k s l i d = elim (Bool-cases (d == c)) [ inl e ↦ rw e l | inr e ↦ rw e (i d) ]

pub set_peer_id-Inv :
    (c id p : ℕ) (s : Chats)
    → DirectInv s
    → DirectInv (set_rooms c (set_peer_id id p (s.clients c).chat_rooms) s)
set_peer_id-Inv c id p s i =
    let (l, d, b) = i c in
    set_client-Inv c
      (record (s.clients c) { chat_rooms = set_peer_id id p (s.clients c).chat_rooms }) s
      (
        rw (length-set_peer_id id p (s.clients c).chat_rooms) l,
        rw (ids-set_peer_id id p (s.clients c).chat_rooms) d,
        below-set_peer_id (s.clients c).chat_rooms_id id p (s.clients c).chat_rooms b,
      )
      i

pub erase_room-Inv :
    (c id : ℕ) (s : Chats)
    → DirectInv s
    → DirectInv (set_rooms c (erase_room id (s.clients c).chat_rooms) s)
erase_room-Inv c id s i =
    let (l, d, b) = i c in
    set_client-Inv c (record (s.clients c) { chat_rooms = erase_room id (s.clients c).chat_rooms })
      s
      (
        omega (arith, length-erase_room id (s.clients c).chat_rooms),
        Distinct-erase_room id (s.clients c).chat_rooms d,
        below-erase_room (s.clients c).chat_rooms_id id (s.clients c).chat_rooms b,
      )
      i

-- A client with a new room.
abbrev pub with_room : Room → Client → Client
with_room r k = record k {
  chat_rooms = k.chat_rooms ++ (k.chat_rooms_id, r) ∷ [];
  chat_rooms_id = k.chat_rooms_id + 1;
}

with_room-Limited :
    (r : Room) (k : Client)
    → leb max_rooms (length k.chat_rooms) ≡ false
    → Limited k
    → Limited (with_room r k)
with_room-Limited r k few (l, d, b) = (
  rw (length-append k.chat_rooms ((k.chat_rooms_id, r) ∷ [])) (ground arith),
  rw (ids-append k.chat_rooms (k.chat_rooms_id, r)) (
      Distinct-append_absent k.chat_rooms_id (ids k.chat_rooms) d
        (index_of-below k.chat_rooms_id k.chat_rooms b)),
  below-append k.chat_rooms_id r k.chat_rooms b,
)

-- The counter and the rooms of a client are set one after the other.
pub new_room :
    (c : ℕ) (r : Room) (s : Chats)
    → Limited (s.clients c)
    → Unwrapped c s
    → set_rooms c (emplace (s.clients c).chat_rooms_id r (s.clients c).chat_rooms) (next_id c s)
      ≡ record s { clients = update s.clients c (with_room r (s.clients c)) }
new_room c r s (l, d, b) u = ap (λ (f : ℕ → Client). record s { clients = f }) (fun_ext at)
  where
    grown : ((s.clients c).chat_rooms_id + 1) % 2 ^ 32 ≡ (s.clients c).chat_rooms_id + 1
    grown = omega arith

    at :
        (j : ℕ)
        → (set_rooms c
              (emplace (s.clients c).chat_rooms_id r (s.clients c).chat_rooms)
              (next_id c s)).clients
            j
          ≡ update s.clients c (with_room r (s.clients c)) j
    at j = elim (Bool-cases (j == c)) [
      | inr e ↦ rw e refl
      | inl e ↦ rw e (
          rw (==_refl c) (
            rw
              (
                find_room-below (s.clients c).chat_rooms_id (s.clients c).chat_rooms b,
                grown,
                emplace,
              )
              refl))
    ]

-- A client that had fewer than ten rooms gets one more.
pub new_room-Inv :
    (c : ℕ) (r : Room) (s : Chats)
    → leb max_rooms (length (s.clients c).chat_rooms) ≡ false
    → Unwrapped c s
    → DirectInv s
    → DirectInv
        (set_rooms c (emplace (s.clients c).chat_rooms_id r (s.clients c).chat_rooms) (next_id c s))
new_room-Inv c r s few u i =
    subst DirectInv (sym (new_room c r s (i c) u)) (
      set_client-Inv c (with_room r (s.clients c)) s (with_room-Limited r (s.clients c) few (i c))
        i)
