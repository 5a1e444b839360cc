-- ===== src/Direct/Replies.antt =====
-- CollabVmServer.hpp: where the messages in a new private room go.
use collab_vm_server.Base.{
  ℕ, ◌+◌, ◌^◌, ◌<◌, ◌≡◌, refl, sym, ap, subst, ◌∙◌, true, false, Option, none, some, List, [], ◌∷◌,
  ◌++◌, ◌==◌, ==_refl, leb, update, length, arith, Bool-cases, inl, inr, append_assoc,
}
use collab_vm_server.Message.{Text}
use collab_vm_server.Guests.{find_guest}
use collab_vm_server.Direct.{
  Room, Client, Chats, channel_id, new_chat_channel, chat, send, find_peer, find_room, set_rooms,
  set_peer_id, complete_room, open_for_recipient, open_room, new_direct, direct, max_rooms,
}
use collab_vm_server.Direct.Limits.{
  DirectInv, Limited, Unwrapped, with_room, new_room, find_room-below,
}
use collab_vm_server.Direct.Reach.{Early}

find_room-last :
    (n : ℕ) (r : Room) (rooms : List (ℕ × Room))
    → find_room n rooms ≡ none
    → find_room n (rooms ++ (n, r) ∷ []) ≡ some r
find_room-last n r [] h = rw (==_refl n) refl
find_room-last n r ((j, q) ∷ rooms) h = ground (arith, find_room-last n r rooms)

renumbered :
    (q r : Room) (p : ℕ)
    → q ≡ r
    → Path (Option Room) (some (record q { peer_id = p })) (some (record r { peer_id = p }))
renumbered q r p e = ap (λ (x : Room). some (record x { peer_id = p })) e

find_room-set_peer_id :
    (n p : ℕ) (rooms : List (ℕ × Room)) (r : Room)
    → find_room n rooms ≡ some r
    → find_room n (set_peer_id n p rooms) ≡ some (record r { peer_id = p })
find_room-set_peer_id n p [] r h = absurd (cc)
find_room-set_peer_id n p ((j, q) ∷ rooms) r h = elim (Bool-cases (j == n)) [
  | inl e ↦ rw e (renumbered q r p (ground (arith, e)))
  | inr e ↦ rw e (find_room-set_peer_id n p rooms r (ground (arith, e)))
]

-- The room that has been made for a client is found, and it is the one that was given.
with_room-find :
    (r : Room) (k : Client)
    → Limited k
    → find_room k.chat_rooms_id (with_room r k).chat_rooms ≡ some r
with_room-find r k (l, d, b) =
    find_room-last k.chat_rooms_id r k.chat_rooms (find_room-below k.chat_rooms_id k.chat_rooms b)

-- The steps of `open_room` where nothing stands in the way.
first_step :
    (c recipient : ℕ) (text : Text) (s : Chats)
    → leb max_rooms (length (s.clients c).chat_rooms) ≡ false
    → find_peer recipient (s.clients c).chat_rooms ≡ none
    → Limited (s.clients c)
    → Unwrapped c s
    → open_room c recipient text s
      ≡ open_for_recipient c recipient (s.clients c).chat_rooms_id text (record s {
        clients =
            update s.clients c (with_room (record { peer = recipient; peer_id = 0 }) (s.clients c));
      })
unfolding open_room
first_step c recipient text s few new l u = rw few (
    rw (new, open_room)
      (ap (open_for_recipient c recipient (s.clients c).chat_rooms_id text)
        (new_room c (record { peer = recipient; peer_id = 0 }) s l u)))

second_step :
    (c recipient sid : ℕ) (text : Text) (s : Chats)
    → leb max_rooms (length (s.clients recipient).chat_rooms) ≡ false
    → find_peer c (s.clients recipient).chat_rooms ≡ none
    → Limited (s.clients recipient)
    → Unwrapped recipient s
    → open_for_recipient c recipient sid text s
      ≡ complete_room c recipient sid (s.clients recipient).chat_rooms_id text (record s {
        clients =
            update s.clients recipient
              (with_room (record { peer = recipient; peer_id = sid }) (s.clients recipient));
      })
unfolding open_for_recipient
second_step c recipient sid text s few new l u =
    rw (new, open_for_recipient)
      (rw few (
        ap (complete_room c recipient sid (s.clients recipient).chat_rooms_id text)
          (new_room recipient (record { peer = recipient; peer_id = sid }) s l u)))

set_rooms_self :
    (c : ℕ) (rooms : List (ℕ × Room)) (s : Chats)
    → (set_rooms c rooms s).clients c ≡ record (s.clients c) { chat_rooms = rooms }
set_rooms_self c rooms s = rw (==_refl c) refl

abbrev completed : ℕ → ℕ → ℕ → ℕ → Text → Chats → Chats
completed c recipient sid rid text s = send c (new_chat_channel rid text) (
    send recipient (new_chat_channel rid text)
      (send c (channel_id sid) (set_rooms c (set_peer_id sid rid (s.clients c).chat_rooms) s)))

third_step :
    (c recipient sid rid : ℕ) (text : Text) (s : Chats) (r : Room)
    → find_room sid (s.clients c).chat_rooms ≡ some r
    → (r.peer_id == 0) ≡ true
    → complete_room c recipient sid rid text s ≡ completed c recipient sid rid text s
unfolding complete_room
third_step c recipient sid rid text s r found z = rw (found, complete_room) (rw z refl)

direct-found :
    (now c : ℕ) (username : Text) (id : ℕ) (text : Text) (s : Chats) (r : Room)
    → find_room id (s.clients c).chat_rooms ≡ some r
    → direct now c username id text s ≡ send r.peer (chat id username text now) s
unfolding direct
direct-found now c username id text s r found = rw (found, direct) refl

-- A client that is not the recipient opens a room with it, and neither has one with the other.
module _ (c recipient : ℕ) (text : Text) (s : Chats) (apart : (recipient == c) ≡ false)
    (i : DirectInv s) (early : Early s)
    (few : leb max_rooms (length (s.clients c).chat_rooms) ≡ false)
    (few' : leb max_rooms (length (s.clients recipient).chat_rooms) ≡ false)
    (new : find_peer recipient (s.clients c).chat_rooms ≡ none)
    (new' : find_peer c (s.clients recipient).chat_rooms ≡ none) where
  abbrev made : Room
  made = record { peer = recipient; peer_id = 0 }

  abbrev sid : ℕ
  sid = (s.clients c).chat_rooms_id

  abbrev with_first : Chats
  with_first = record s { clients = update s.clients c (with_room made (s.clients c)) }

  abbrev other : Client
  other = with_first.clients recipient

  kept : other ≡ s.clients recipient
  kept = rw apart refl

  abbrev with_second : Chats
  with_second = record with_first {
    clients =
        update with_first.clients recipient
          (with_room (record { peer = recipient; peer_id = sid }) other);
  }

  abbrev opened : Chats
  opened = completed c recipient sid other.chat_rooms_id text with_second

  apart' : (c == recipient) ≡ false
  apart' = ground (arith, apart)

  mine : with_second.clients c ≡ with_room made (s.clients c)
  mine = rw apart' (rw (==_refl c) refl)

  open_room-opened : open_room c recipient text s ≡ opened
  open_room-opened =
      first_step c recipient text s few new (i c) (omega (arith, early c))
      ∙ second_step c recipient sid text with_first
          (ap (λ (k : Client). leb max_rooms (length k.chat_rooms)) kept ∙ few')
          (ap (λ (k : Client). find_peer c k.chat_rooms) kept ∙ new')
          (subst Limited (sym kept) (i recipient))
          (subst (λ (k : Client). k.chat_rooms_id + 1 < 2 ^ 32) (sym kept)
            (omega (arith, early recipient)))
      ∙ third_step c recipient sid other.chat_rooms_id text with_second made
          (ap (λ (k : Client). find_room sid k.chat_rooms) mine
            ∙ with_room-find made (s.clients c) (i c))
          refl

  my_room :
      find_room sid (opened.clients c).chat_rooms
      ≡ some (record { peer = recipient; peer_id = other.chat_rooms_id })
  my_room =
      ap (λ (k : Client). find_room sid k.chat_rooms)
        (set_rooms_self c (set_peer_id sid other.chat_rooms_id (with_second.clients c).chat_rooms)
          with_second)
      ∙ find_room-set_peer_id sid other.chat_rooms_id (with_second.clients c).chat_rooms made (
          ap (λ (k : Client). find_room sid k.chat_rooms) mine
          ∙ with_room-find made (s.clients c) (i c))

  its_room :
      find_room other.chat_rooms_id (opened.clients recipient).chat_rooms
      ≡ some (record { peer = recipient; peer_id = sid })
  its_room =
      ap (λ (k : Client). find_room other.chat_rooms_id k.chat_rooms) theirs
      ∙ with_room-find (record { peer = recipient; peer_id = sid }) other
          (subst Limited (sym kept) (i recipient))
    where
      theirs :
          opened.clients recipient ≡ with_room (record { peer = recipient; peer_id = sid }) other
      theirs = rw (apart, ==_refl recipient) refl

  -- A client writes to a guest that is another client, neither has a room with the other, and neither
  -- has ten rooms. Then both are sent the id of the guest's new room with the text, and the client
  -- the id of its own. What the client writes to its room goes to the guest; but what the guest
  -- answers in its room goes to the guest itself.
  pub new_direct-rooms :
      (to_upper : ℕ → ℕ) (name : Text)
      → find_guest to_upper name s.guests ≡ some recipient
      → (now : ℕ) (username username' line answer : Text)
      → let t = new_direct to_upper c name text s in
        let id = (s.clients recipient).chat_rooms_id in
        (t.sent
          ≡ s.sent
            ++ (c, channel_id sid)
              ∷ (recipient, new_chat_channel id text)
              ∷ (c, new_chat_channel id text)
              ∷ [])
        × (direct now c username sid line t ≡ send recipient (chat sid username line now) t)
        × (direct now recipient username' id answer t
            ≡ send recipient (chat id username' answer now) t)
  unfolding new_direct
  new_direct-rooms to_upper name found now username username' line answer =
      let e : new_direct to_upper c name text s ≡ opened =
        rw (found, new_direct) open_room-opened in
      rw e (
        subst
          (λ (k : Client).
            (opened.sent
              ≡ s.sent
                ++ (c, channel_id sid)
                  ∷ (recipient, new_chat_channel k.chat_rooms_id text)
                  ∷ (c, new_chat_channel k.chat_rooms_id text)
                  ∷ [])
            × (direct now c username sid line opened
                ≡ send recipient (chat sid username line now) opened)
            × (direct now recipient username' k.chat_rooms_id answer opened
                ≡ send recipient (chat k.chat_rooms_id username' answer now) opened))
          kept
          (
            simp append_assoc,
            direct-found now c username sid line opened _ my_room,
            direct-found now recipient username' other.chat_rooms_id answer opened _ its_room,
          ))
