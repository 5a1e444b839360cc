-- ===== src/Chat.antt =====
-- CollabVmChatRoom.hpp. The message list is a ring of slots whose texts have a fixed size. `none` is a
-- fault: a text that does not fit its buffer, which `std::copy` would overrun, or a slot out of range.
-- The two sizes are `Common::max_username_len` and `Common::max_chat_message_len`.
pub mod Ring
pub mod History
use collab_vm_server.Base.{
  ℕ, zero, suc, ◌+◌, ◌-◌, ◌%◌, min, Option, none, some, List, [], ◌∷◌, ◌++◌, length, get_elem?, set,
  replicate, leb, ◌==◌, if◌then◌else◌, ◌>>=◌,
}
use collab_vm_server.Message.{Text, UserType, guest, ChatMessage, Message, chat_message}

pub record ChatRoom : Type 0 where
  pub id : ℕ
  pub next_message_offset : ℕ
  pub count : ℕ
  pub messages : List ChatMessage

abbrev pub max_chat_message_history : ℕ
max_chat_message_history = 100

-- What the constructor puts into every slot; the user type is the schema's first one.
abbrev pub blank_message : ℕ → ℕ → ChatMessage
blank_message max_username_len max_message_len = record {
  sender = replicate max_username_len 0;
  message = replicate max_message_len 0;
  user_type = guest;
  timestamp = 0;
}

unfoldable pub new_room : ℕ → ℕ → ℕ → ChatRoom
new_room max_username_len max_message_len id = record {
  id = id;
  next_message_offset = 0;
  count = 0;
  messages = replicate max_chat_message_history (blank_message max_username_len max_message_len);
}

-- `copyStringToTextBuilder`: the text, and NULs up to the buffer's end.
unfoldable pub copy_string : Text → Text → Option Text
copy_string string buffer =
    if leb (length string) (length buffer)
    then some (string ++ replicate (length buffer - length string) 0)
    else none

-- The writes to one slot. Its user type is not among them.
unfoldable pub fill_slot : ℕ → Text → Text → ChatMessage → Option ChatMessage
unfolding copy_string
fill_slot timestamp username message slot = copy_string message slot.message >>= λ body.
    copy_string username slot.sender >>= λ name.
    some (record slot { message = body; sender = name; timestamp = timestamp })

unfoldable pub add_user_message :
    ℕ → Text → UserType → Text → ChatRoom → Option (ChatRoom × Message)
unfolding fill_slot
add_user_message timestamp username user_type message room =
    get_elem? room.messages room.next_message_offset >>= λ slot.
    fill_slot timestamp username message slot >>= λ filled. some (
      record room {
        count = min (room.count + 1) max_chat_message_history;
        messages = set room.messages room.next_message_offset filled;
        next_message_offset = (room.next_message_offset + 1) % max_chat_message_history;
      },
      chat_message room.id (record {
        sender = username;
        message = message;
        user_type = user_type;
        timestamp = timestamp;
      }),
    )

-- The loop of `GetChatHistory`, from an index on.
unfoldable pub collect : ℕ → ℕ → List ChatMessage → Option (List ChatMessage)
collect zero index messages = some []
collect (suc n) index messages = get_elem? messages index >>= λ m.
    collect n ((index + 1) % length messages) messages >>= λ ms. some (m ∷ ms)

unfoldable pub get_chat_history : ChatRoom → Option (List ChatMessage)
unfolding collect
get_chat_history room =
    collect room.count
      (if room.count == max_chat_message_history then room.next_message_offset else 0) room.messages
