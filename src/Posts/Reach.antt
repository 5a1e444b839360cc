-- ===== src/Posts/Reach.antt =====
-- CollabVmServer.hpp: the rooms of the channels, while clients write, names change and machines come and go.
use collab_vm_server.Base.{
  ℕ, ◌-◌, ◌≤◌, ◌≡◌, sym, subst, ◌∙◌, none, some, List, [], arith, inl, inr, ◌⊎◌, Bool-cases, ◌==◌,
  length, update, drop,
}
use collab_vm_server.Message.{ChatMessage, Message}
use collab_vm_server.Chat.{ChatRoom, new_room, get_chat_history}
use collab_vm_server.Chat.Ring.{Holds, get_chat_history_lem}
use collab_vm_server.Chat.History.{new_room-Holds}
use collab_vm_server.Direct.{Chats}
use collab_vm_server.Rooms.{global_channel_id}
use collab_vm_server.Posts.{Poster, Posts, Post, get_room, chat_message}
use collab_vm_server.Posts.Rate.{some_posts}
use collab_vm_server.Posts.History.{log_of, PostsInv, some_room, chat_message-Inv}

module _ (name_len message_len rate : ℕ) (to_upper : ℕ → ℕ) where
  abbrev with_machine : ℕ → Posts → Posts
  with_machine id s = record s {
    vm_chat_rooms = update s.vm_chat_rooms id (some (new_room name_len message_len id));
  }

  with_machine-room :
      (id j : ℕ) (room : ChatRoom) (s : Posts)
      → get_room j (with_machine id s) ≡ some room
      → (get_room j s ≡ some room) ⊎ ((id ≡ j) × (new_room name_len message_len id ≡ room))
  with_machine-room id j room s g = elim (Bool-cases (j == global_channel_id)) [
    | inl all ↦ inl (ground (arith, g))
    | inr vm ↦ elim (Bool-cases (j == id)) [
      | inl same ↦ inr (ground arith, some_room name_len message_len _ room (ground (arith, g)))
      | inr other ↦ inl (ground (arith, g))
    ]
  ]

  -- The messages of the clients, what else changes a client or its private rooms, and the machines that come and go. The
  -- room of a machine is a new one, and no machine gets the id of one that was there.
  pub data PostsReach : Posts → Type 0 where
    start :
        (s : Posts)
        → s.broadcasts ≡ []
        → ((c : ℕ) → (s.posters c).username ≡ [])
        → ((id : ℕ) (room : ChatRoom)
            → get_room id s ≡ some room
            → room ≡ new_room name_len message_len id)
        → PostsReach s
    posts :
        {s t : Posts} (c : ℕ) (post : Post)
        → PostsReach s
        → chat_message message_len rate to_upper c post s ≡ some t
        → PostsReach t
    changes :
        {s : Posts} (c : ℕ) (p : Poster) (chats : Chats)
        → length p.username ≤ name_len
        → PostsReach s
        → PostsReach (record s { posters = update s.posters c p; chats = chats })
    creates :
        {s : Posts} (id : ℕ)
        → log_of name_len message_len id s.broadcasts ≡ []
        → PostsReach s
        → PostsReach (with_machine id s)
    deletes :
        {s : Posts} (id : ℕ)
        → PostsReach s
        → PostsReach (record s { vm_chat_rooms = update s.vm_chat_rooms id none })

  PostsReach-PostsInv : (s : Posts) → PostsReach s → PostsInv name_len message_len s
  PostsReach-PostsInv t (start s quiet unnamed fresh) = record {
    rooms = λ id room g.
        subst
          (λ (l : List (ℕ × Message)).
            Holds name_len message_len (log_of name_len message_len id l) room)
          (sym quiet)
          (subst (Holds name_len message_len []) (sym (fresh id room g))
            (new_room-Holds name_len message_len id));
    names = λ c. ground (arith, unnamed c);
  }
  PostsReach-PostsInv t (posts {s} c post r e) =
      let (t', e', i) =
        chat_message-Inv name_len message_len rate to_upper c post s (PostsReach-PostsInv s r) in
      subst (PostsInv name_len message_len) (some_posts t' t (sym e' ∙ e)) i
  PostsReach-PostsInv t (changes {s} c p chats fits r) =
      let i = PostsReach-PostsInv s r in
      record { rooms = i.rooms; names = λ d. ground (arith, i.names d) }
  PostsReach-PostsInv t (creates {s} id unused r) =
      let i = PostsReach-PostsInv s r in
      record {
        rooms = λ j room g. elim (with_machine-room id j room s g) [
          | inl old ↦ i.rooms j room old
          | inr (q, new) ↦
              subst
                (λ (x : ℕ).
                  Holds name_len message_len (log_of name_len message_len x s.broadcasts) room)
                q
                (subst (λ (l : List ChatMessage). Holds name_len message_len l room) (sym unused)
                  (subst (Holds name_len message_len []) new
                    (new_room-Holds name_len message_len id)))
        ];
        names = i.names;
      }
  PostsReach-PostsInv t (deletes {s} id r) =
      let i = PostsReach-PostsInv s r in
      record { rooms = λ j room g. i.rooms j room (ground (arith, g)); names = i.names }

  -- Whatever clients write, under names that fit the slots, while machines come under ids in which
  -- nothing was broadcast and go: the next message of a client does not fault, and the history of the
  -- room of every channel is the last hundred messages broadcast in it, oldest first, without the rank
  -- of their senders.
  pub PostsReach-history :
      (s : Posts)
      → PostsReach s
      → ((c : ℕ) (post : Post)
          → (t : Posts) × (chat_message message_len rate to_upper c post s ≡ some t))
        × ((id : ℕ) (room : ChatRoom)
            → get_room id s ≡ some room
            → let log = log_of name_len message_len id s.broadcasts in
              get_chat_history room ≡ some (drop (length log - 100) log))
  PostsReach-history s r =
      let i = PostsReach-PostsInv s r in
      (
        λ c post.
            let (t, e, j) = chat_message-Inv name_len message_len rate to_upper c post s i in
            (t, e),
        λ id room g.
            get_chat_history_lem name_len message_len (log_of name_len message_len id s.broadcasts)
              room (i.rooms id room g),
      )
