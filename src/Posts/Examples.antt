-- ===== src/Posts/Examples.antt =====
-- CollabVmServer.hpp: a client that writes to the global chat room.
use collab_vm_server.Base.{
  ℕ, ◌-◌, ◌≡◌, ◌⊎◌, refl, false, none, some, [], ◌∷◌, arith, length, drop, update, get_elem?,
}
use collab_vm_server.Chat.{
  ChatRoom, new_room, add_user_message, fill_slot, copy_string, get_chat_history,
}
use collab_vm_server.Direct.{Chats}
use collab_vm_server.Posts.{
  Poster, Posts, Post, to_vm, get_room, send_message, deliver, is_dropped, chat_message,
  chat_messages,
}
use collab_vm_server.Posts.Rate.{chat_messages-one}
use collab_vm_server.Posts.History.{log_of}
use collab_vm_server.Posts.Reach.{start, posts, changes, PostsReach-history}

abbrev no_case : ℕ → ℕ
no_case n = n

abbrev unnamed : Poster
unnamed = record {
  username = [];
  is_captcha_required = false;
  is_admin = false;
  is_logged_in = false;
  last_chat_message = 0;
}

abbrev named : Poster
named = record unnamed { username = 97 ∷ [] }

abbrev no_chats : Chats
no_chats = record {
  clients = λ c. record { chat_rooms = []; chat_rooms_id = 1 };
  guests = [];
  sent = [];
}

abbrev at_start : Posts
at_start = record {
  posters = λ c. unnamed;
  chats = no_chats;
  global_chat_room = new_room 4 8 0;
  vm_chat_rooms = λ id. none;
  broadcasts = [];
}

abbrev later : Posts
later = record at_start { posters = update at_start.posters 3 named }

abbrev greeting : Post
greeting = record { now = 700; timestamp = 50; destination = to_vm 0; message = 72 ∷ 105 ∷ [] }

abbrev again : Post
again = record greeting { now = 900 }

chat_messages-one_example :
    (chat_messages 8 500 no_case 3 (greeting ∷ again ∷ []) later ≡ some later)
    ⊎ ((post : Post) × (i : ℕ) × (get_elem? (greeting ∷ again ∷ []) i ≡ some post)
        × (chat_messages 8 500 no_case 3 (greeting ∷ again ∷ []) later
            ≡ chat_message 8 500 no_case 3 post later))
chat_messages-one_example =
    chat_messages-one 8 500 no_case 3 600 (greeting ∷ again ∷ []) later
      ((omega arith, omega arith), ((omega arith, omega arith), tt))

-- The state after the first message, as its clauses compute it.
abbrev with_greeting : Posts
unfolding chat_message
with_greeting = elim (chat_message 8 500 no_case 3 greeting later) [ none ↦ later | some t ↦ t ]

greeting_said : chat_message 8 500 no_case 3 greeting later ≡ some with_greeting
unfolding chat_message deliver send_message is_dropped add_user_message fill_slot copy_string
    new_room
greeting_said = refl

PostsReach-history_example :
    ((c : ℕ) (post : Post)
      → (t : Posts) × (chat_message 8 500 no_case c post with_greeting ≡ some t))
    × ((id : ℕ) (room : ChatRoom)
        → get_room id with_greeting ≡ some room
        → let log = log_of 4 8 id with_greeting.broadcasts in
          get_chat_history room ≡ some (drop (length log - 100) log))
PostsReach-history_example = PostsReach-history 4 8 500 no_case with_greeting (
    posts 3 greeting
      (changes 3 named no_chats (omega arith)
        (start at_start refl (λ c. refl) (λ id room g. ground (arith, g))))
      greeting_said)
