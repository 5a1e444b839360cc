-- ===== src/Posts.antt =====
-- CollabVmServer.hpp: CHAT_MESSAGE, from the check of a message to the rooms of Chat and Direct. A
-- message runs to its end, its dispatches included, before the next one. `none` is a fault of Chat.
-- The lengths and the delay are `Common::max_chat_message_len` and `Common::chat_rate_limit`; the time
-- of the steady clock and the time stamp of a message are two arguments.
pub mod Rate
pub mod History
pub mod Reach
mod Examples
use collab_vm_server.Base.{
  ℕ, ◌+◌, Bool, ◌||◌, Option, some, none, List, [], ◌∷◌, ◌++◌, length, ltb, ◌==◌, update, is_empty,
  if◌then◌else◌, ◌>>=◌,
}
use collab_vm_server.Message.{Text, UserType, guest, regular, admin, Message}
use collab_vm_server.Chat.{ChatRoom, add_user_message}
use collab_vm_server.Direct.{Chats, new_direct, direct}
use collab_vm_server.Rooms.{global_channel_id}

pub record Poster : Type 0 where
  pub username : Text
  pub is_captcha_required : Bool
  pub is_admin : Bool
  pub is_logged_in : Bool
  pub last_chat_message : ℕ

pub data ChatMessageDestination : Type 0 where
  to_new_direct : Text → ChatMessageDestination
  to_direct to_vm : ℕ → ChatMessageDestination
  to_other : ChatMessageDestination

-- The clients, their private rooms, the rooms of the channels, and what has been broadcast in which.
pub record Posts : Type 0 where
  pub posters : ℕ → Poster
  pub chats : Chats
  pub global_chat_room : ChatRoom
  pub vm_chat_rooms : ℕ → Option ChatRoom
  pub broadcasts : List (ℕ × Message)

-- When, on either clock, for whom and what.
pub record Post : Type 0 where
  pub now : ℕ
  pub timestamp : ℕ
  pub destination : ChatMessageDestination
  pub message : Text

abbrev pub get_user_type : Poster → UserType
get_user_type p = if p.is_admin then admin else if p.is_logged_in then regular else guest

abbrev pub get_room : ℕ → Posts → Option ChatRoom
get_room id s = if id == global_channel_id then some s.global_chat_room else s.vm_chat_rooms id

abbrev pub set_room : ℕ → ChatRoom → Posts → Posts
set_room id room s =
    if id == global_channel_id
    then record s { global_chat_room = room }
    else record s { vm_chat_rooms = update s.vm_chat_rooms id (some room) }

-- `send_message`, for the channel with the id.
unfoldable pub send_message : Poster → Post → ℕ → ChatRoom → Posts → Option Posts
send_message p post id room s =
    add_user_message post.timestamp p.username (get_user_type p) post.message room >>= λ (room', m).
    let t = set_room id room' s in some (record t { broadcasts = s.broadcasts ++ (id, m) ∷ [] })

module _ (max_chat_message_len chat_rate_limit : ℕ) (to_upper : ℕ → ℕ) where
  unfoldable pub deliver : ℕ → Poster → Post → ChatMessageDestination → Posts → Option Posts
  unfolding send_message
  deliver c p post (to_new_direct name) s =
      some (record s { chats = new_direct to_upper c name post.message s.chats })
  deliver c p post (to_direct id) s =
      some (record s { chats = direct post.timestamp c p.username id post.message s.chats })
  deliver c p post (to_vm id) s = elim (get_room id s) [
    | none ↦ some s
    | some room ↦ send_message p post id room s
  ]
  deliver c p post to_other s = some s

  -- The message is dropped: there is a captcha to solve, it has a wrong length, or it comes too soon.
  unfoldable pub is_dropped : Poster → Post → Bool
  is_dropped p post =
      p.is_captcha_required
      || (length post.message == 0
          || (ltb max_chat_message_len (length post.message)
              || ltb post.now (p.last_chat_message + chat_rate_limit)))

  unfoldable pub chat_message : ℕ → Post → Posts → Option Posts
  unfolding is_dropped deliver
  chat_message c post s =
      let p = s.posters c in
      if is_dropped p post
      then some s
      else (let s1 = record s {
        posters = update s.posters c (record p { last_chat_message = post.now });
      } in
          if is_empty p.username then some s1 else deliver c p post post.destination s1)

  unfoldable pub chat_messages : ℕ → List Post → Posts → Option Posts
  chat_messages c [] s = some s
  chat_messages c (post ∷ posts) s = chat_message c post s >>= λ t. chat_messages c posts t
