-- ===== src/Rooms.antt =====
-- CollabVmServer.hpp: the channels that a client is in (CONNECT_TO_CHANNEL, OnDisconnect). Of a channel
-- only the users count here; Channel has the rest. Channel 0 is the global chat room. A request runs to
-- its end, its dispatches included, before the next one. The name of the client is in Guests, the list
-- of the machines that it leaves in Panel, and the chat history of an answer in Chat.
pub mod Places
pub mod Moves
pub mod Reach
mod Examples
use collab_vm_server.Base.{
  ℕ, Bool, true, false, not, ◌&&◌, Option, none, some, List, [], ◌∷◌, ◌++◌, ◌==◌, update,
  if◌then◌else◌,
}
use collab_vm_server.VmList.{erase_viewer}

pub record RoomFlags : Type 0 where
  pub connected_vm_id : ℕ
  pub is_in_global_chat : Bool
  pub is_logged_in : Bool
  -- The socket is open.
  pub present : Bool

pub data ConnectResponse : Type 0 where
  success fail : ConnectResponse

pub record Rooms : Type 0 where
  pub clients : ℕ → RoomFlags
  pub members : ℕ → List ℕ
  -- The machines, with their setting DISALLOW_GUESTS.
  pub disallow_guests : ℕ → Option Bool
  pub responses : List (ℕ × ConnectResponse)

abbrev pub global_channel_id : ℕ
global_channel_id = 0

abbrev pub respond : ℕ → ConnectResponse → Rooms → Rooms
respond c r s = record s { responses = s.responses ++ (c, r) ∷ [] }

abbrev pub remove_user : ℕ → ℕ → Rooms → Rooms
remove_user c m s = record s { members = update s.members m (erase_viewer c (s.members m)) }

abbrev pub add_user : ℕ → ℕ → Rooms → Rooms
add_user c m s = record s { members = update s.members m (s.members m ++ c ∷ []) }

-- The client leaves the channel of its machine, if it has one that is still there.
abbrev pub leave_machine : ℕ → Rooms → Rooms
leave_machine c s =
    let id = (s.clients c).connected_vm_id in
    if id == 0 then s else elim (s.disallow_guests id) [ none ↦ s | some d ↦ remove_user c id s ]

-- The inner `connect_to_channel`.
unfoldable pub enter_channel : ℕ → ℕ → Rooms → Rooms
enter_channel c m s =
    let s1 = leave_machine c s in
    let s2 = record s1 {
      clients = update s1.clients c (record (s1.clients c) { connected_vm_id = m });
    } in
    add_user c m (respond c success s2)

unfoldable pub connect_to_channel : ℕ → ℕ → Rooms → Rooms
connect_to_channel c m s =
    if m == global_channel_id
    then (if (s.clients c).is_in_global_chat
        then s
        else enter_channel c m (record s {
          clients = update s.clients c (record (s.clients c) { is_in_global_chat = true });
        }))
    else elim (s.disallow_guests m) [
      | none ↦ respond c fail s
      | some d ↦
          if d && not (s.clients c).is_logged_in then respond c fail s else enter_channel c m s
    ]

-- The client leaves the global chat room, and the socket is gone.
abbrev pub leave_rest : ℕ → Rooms → Rooms
leave_rest c s =
    let s1 = if (s.clients c).is_in_global_chat then remove_user c global_channel_id s else s in
    record s1 { clients = update s1.clients c (record (s1.clients c) { present = false }) }

-- The part of `OnDisconnect` for the channels.
unfoldable pub leave_channels : ℕ → Rooms → Rooms
leave_channels c s = leave_rest c (leave_machine c s)
