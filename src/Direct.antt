-- ===== src/Direct.antt =====
-- CollabVmServer.hpp: chat between two clients (CHAT_MESSAGE with NEW_DIRECT and DIRECT). A socket is a
-- number. `chat_rooms_` is a list in the order in which `find_if` meets the rooms, with a new room at its
-- end; the ids are 32-bit. A message runs to its end, its dispatches included, before the next one.
pub mod Limits
pub mod Reach
pub mod Replies
mod Examples
use collab_vm_server.Base.{
  ℕ, ◌+◌, ◌%◌, ◌^◌, Bool, true, false, not, ◌&&◌, ◌||◌, Option, none, some, List, [], ◌∷◌, ◌++◌,
  length, ltb, leb, ◌==◌, update, is_empty, if◌then◌else◌,
}
use collab_vm_server.Message.{Text}
use collab_vm_server.Guests.{find_guest}

-- The other client, and the id of its room for this one, or 0.
pub record Room : Type 0 where
  pub peer : ℕ
  pub peer_id : ℕ

pub record Client : Type 0 where
  pub chat_rooms : List (ℕ × Room)
  pub chat_rooms_id : ℕ

pub data ChatMessageResponse : Type 0 where
  user_not_found user_chat_limit recipient_chat_limit : ChatMessageResponse

pub data Message : Type 0 where
  response : ChatMessageResponse → Message
  channel_id : ℕ → Message
  new_chat_channel : ℕ → Text → Message
  -- The channel, the sender, the text and the time.
  chat : ℕ → Text → Text → ℕ → Message

pub record Chats : Type 0 where
  pub clients : ℕ → Client
  pub guests : List (Text × ℕ)
  pub sent : List (ℕ × Message)

abbrev pub max_rooms : ℕ
max_rooms = 10

abbrev pub send : ℕ → Message → Chats → Chats
send c m s = record s { sent = s.sent ++ (c, m) ∷ [] }

abbrev pub set_rooms : ℕ → List (ℕ × Room) → Chats → Chats
set_rooms c rooms s = record s {
  clients = update s.clients c (record (s.clients c) { chat_rooms = rooms });
}

abbrev pub find_peer : ℕ → List (ℕ × Room) → Option (ℕ × Room)
find_peer p [] = none
find_peer p ((id, r) ∷ rs) = if r.peer == p then some (id, r) else find_peer p rs

abbrev pub find_room : ℕ → List (ℕ × Room) → Option Room
find_room id [] = none
find_room id ((j, r) ∷ rs) = if j == id then some r else find_room id rs

-- `emplace` leaves a room that has the id.
abbrev pub emplace : ℕ → Room → List (ℕ × Room) → List (ℕ × Room)
emplace id r rooms = elim (find_room id rooms) [ some taken ↦ rooms | none ↦ rooms ++ (id, r) ∷ [] ]

abbrev pub set_peer_id : ℕ → ℕ → List (ℕ × Room) → List (ℕ × Room)
set_peer_id id peer_id [] = []
set_peer_id id peer_id ((j, r) ∷ rs) =
    (j, if j == id then record r { peer_id = peer_id } else r) ∷ set_peer_id id peer_id rs

abbrev pub erase_room : ℕ → List (ℕ × Room) → List (ℕ × Room)
erase_room id [] = []
erase_room id ((j, r) ∷ rs) = let rest = erase_room id rs in if j == id then rest else (j, r) ∷ rest

-- `chat_rooms_id_++`
abbrev pub next_id : ℕ → Chats → Chats
next_id c s = record s {
  clients =
      update s.clients c
        (record (s.clients c) { chat_rooms_id = ((s.clients c).chat_rooms_id + 1) % 2 ^ 32 });
}

-- The room of the sender that has been made is completed, if it is still there.
unfoldable pub complete_room : ℕ → ℕ → ℕ → ℕ → Text → Chats → Chats
complete_room c recipient sender_id recipient_id text s =
    elim (find_room sender_id (s.clients c).chat_rooms) [
      | none ↦ s
      | some r ↦
          if not (r.peer_id == 0)
          then s
          else send c (new_chat_channel recipient_id text) (
              send recipient (new_chat_channel recipient_id text) (
                send c (channel_id sender_id)
                  (set_rooms c (set_peer_id sender_id recipient_id (s.clients c).chat_rooms) s)))
    ]

-- The part that runs on the recipient's rooms. The new room is one of the recipient with itself.
unfoldable pub open_for_recipient : ℕ → ℕ → ℕ → Text → Chats → Chats
unfolding complete_room
open_for_recipient c recipient sender_id text s =
    let rooms = (s.clients recipient).chat_rooms in
    elim (find_peer c rooms) [
      | some (id, r) ↦
          if r.peer_id == 0
          then set_rooms recipient (set_peer_id id sender_id rooms) s
          else send c (channel_id sender_id) s
      | none ↦
          if leb max_rooms (length rooms)
          then send c (response recipient_chat_limit)
              (set_rooms c (erase_room sender_id (s.clients c).chat_rooms) s)
          else (let recipient_id = (s.clients recipient).chat_rooms_id in
              let s1 = next_id recipient s in
              let s2 =
                set_rooms recipient
                  (emplace recipient_id (record { peer = recipient; peer_id = sender_id }) rooms)
                  s1 in
              complete_room c recipient sender_id recipient_id text s2)
    ]

unfoldable pub open_room : ℕ → ℕ → Text → Chats → Chats
unfolding open_for_recipient
open_room c recipient text s =
    let rooms = (s.clients c).chat_rooms in
    if leb max_rooms (length rooms)
    then send c (response user_chat_limit) s
    else elim (find_peer recipient rooms) [
      | some (id, r) ↦ send c (channel_id r.peer_id) s
      | none ↦
          let id = (s.clients c).chat_rooms_id in
          let s1 = next_id c s in
          let s2 = set_rooms c (emplace id (record { peer = recipient; peer_id = 0 }) rooms) s1 in
          open_for_recipient c recipient id text s2
    ]

-- `NEW_DIRECT`: the recipient is found among the guests.
unfoldable pub new_direct : (ℕ → ℕ) → ℕ → Text → Text → Chats → Chats
unfolding open_room
new_direct to_upper c name text s = elim (find_guest to_upper name s.guests) [
  | none ↦ send c (response user_not_found) s
  | some recipient ↦ open_room c recipient text s
]

-- `DIRECT`, with the message of CreateChatMessage.
unfoldable pub direct : ℕ → ℕ → Text → ℕ → Text → Chats → Chats
direct now c username id text s = elim (find_room id (s.clients c).chat_rooms) [
  | none ↦ s
  | some r ↦ send r.peer (chat id username text now) s
]
