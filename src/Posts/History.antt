-- ===== src/Posts/History.antt =====
-- CollabVmServer.hpp: the rooms of the channels while clients write, against what has been broadcast.
use collab_vm_server.Base.{
  ℕ, ◌≤◌, ◌≡◌, refl, sym, subst, ◌∙◌, false, Option, some, List, [], ◌∷◌, ◌++◌, arith, inl, inr,
  Bool-cases, Option-cases, ◌==◌, length, update, is_empty, if◌then◌else◌, append_assoc, ==_refl,
}
use collab_vm_server.Message.{ChatMessage, Message, chat_message as said_in}
use collab_vm_server.Chat.{ChatRoom}
use collab_vm_server.Chat.Ring.{Holds}
use collab_vm_server.Chat.History.{history_entry, said, add_user_message-Holds}
use collab_vm_server.Posts.{
  Poster, ChatMessageDestination, to_new_direct, to_direct, to_vm, to_other, Posts, Post, get_room,
  set_room, get_user_type, send_message, deliver, is_dropped, chat_message,
}
use collab_vm_server.Posts.Rate.{set_room-posters}

module _ (name_len message_len : ℕ) where
  abbrev entry_of : Message → List ChatMessage
  entry_of (said_in id m) = history_entry name_len message_len m.timestamp m.sender m.message ∷ []
  entry_of m = []

  -- What a history may keep of the messages that have been broadcast in a channel.
  abbrev pub log_of : ℕ → List (ℕ × Message) → List ChatMessage
  log_of id [] = []
  log_of id ((j, m) ∷ ms) = let rest = log_of id ms in if j == id then entry_of m ++ rest else rest

  log_of-same :
      (id room_id : ℕ) (m : ChatMessage) (ms : List (ℕ × Message))
      → log_of id (ms ++ (id, said_in room_id m) ∷ [])
        ≡ log_of id ms ++ history_entry name_len message_len m.timestamp m.sender m.message ∷ []
  log_of-same id room_id m [] = rw (==_refl id) refl
  log_of-same id room_id m ((k, x) ∷ ms) = elim (Bool-cases (k == id)) [
    | inl here ↦
        rw (here, log_of-same id room_id m ms)
          (sym (
            append_assoc (entry_of x) (log_of id ms)
              (history_entry name_len message_len m.timestamp m.sender m.message ∷ [])))
    | inr there ↦ rw (there, log_of-same id room_id m ms) refl
  ]

  log_of-other :
      (id j : ℕ) (m : Message) (ms : List (ℕ × Message))
      → (j == id) ≡ false
      → log_of id (ms ++ (j, m) ∷ []) ≡ log_of id ms
  log_of-other id j m [] e = rw e refl
  log_of-other id j m ((k, x) ∷ ms) e = rw (log_of-other id j m ms e) refl

  -- Every room holds what was broadcast in its channel, and the names fit the slots.
  pub record PostsInv (s : Posts) : Type 0 where
    pub rooms :
        (id : ℕ) (room : ChatRoom)
        → get_room id s ≡ some room
        → Holds name_len message_len (log_of id s.broadcasts) room
    pub names : (c : ℕ) → length (s.posters c).username ≤ name_len

  get_room-set_self :
      (id : ℕ) (room : ChatRoom) (s : Posts) → get_room id (set_room id room s) ≡ some room
  get_room-set_self id room s = ground arith

  get_room-set_other :
      (id j : ℕ) (room : ChatRoom) (s : Posts)
      → (j == id) ≡ false
      → get_room id (set_room j room s) ≡ get_room id s
  get_room-set_other id j room s e = ground arith

  pub some_room : (a b : ChatRoom) → some a ≡ some b → a ≡ b
  some_room a b e = cc

  -- A broadcast in a channel, with a room of the channel that holds it too.
  broadcast-Inv :
      (id room_id : ℕ) (m : ChatMessage) (room : ChatRoom) (s : Posts)
      → PostsInv s
      → Holds name_len message_len
          (log_of id s.broadcasts
            ++ history_entry name_len message_len m.timestamp m.sender m.message ∷ [])
          room
      → PostsInv (record (set_room id room s) {
        broadcasts = s.broadcasts ++ (id, said_in room_id m) ∷ [];
      })
  broadcast-Inv id room_id m room s i k =
      let after = s.broadcasts ++ (id, said_in room_id m) ∷ [] in
      record {
        rooms = λ j other g. elim (Bool-cases (id == j)) [
          | inl same ↦
              let q : id ≡ j = ground arith in
              let r : room ≡ other = some_room room other (
                sym (get_room-set_self id room s)
                ∙ subst (λ (x : ℕ). get_room x (set_room id room s) ≡ some other) (sym q) g) in
              subst (λ (x : ℕ). Holds name_len message_len (log_of x after) other) q
                (subst (Holds name_len message_len (log_of id after)) r (
                  subst (λ (l : List ChatMessage). Holds name_len message_len l room)
                    (sym (log_of-same id room_id m s.broadcasts)) k))
          | inr apart ↦
              subst (λ (l : List ChatMessage). Holds name_len message_len l other)
                (sym (log_of-other j id (said_in room_id m) s.broadcasts apart))
                (i.rooms j other (sym (get_room-set_other j id room s apart) ∙ g))
        ];
        names = λ c.
            subst (λ (f : ℕ → Poster). length (f c).username ≤ name_len)
              (sym (set_room-posters id room s)) (i.names c);
      }

  -- What is said in a room that is there, by a name and with a text that fit.
  send_message-Inv :
      (p : Poster) (post : Post) (id : ℕ) (room : ChatRoom) (s : Posts)
      → PostsInv s
      → get_room id s ≡ some room
      → length p.username ≤ name_len
      → length post.message ≤ message_len
      → (t : Posts) × (send_message p post id room s ≡ some t) × PostsInv t
  unfolding send_message
  send_message-Inv p post id room s i here small fits =
      let m : ChatMessage = record {
        sender = p.username;
        message = post.message;
        user_type = get_user_type p;
        timestamp = post.timestamp;
      } in
      let (e, k) =
        add_user_message-Holds name_len message_len (log_of id s.broadcasts) room
          (i.rooms id room here) post.timestamp p.username (get_user_type p) post.message small
          fits in
      let entry = history_entry name_len message_len post.timestamp p.username post.message in
      (
        record (set_room id (said entry room) s) {
          broadcasts = s.broadcasts ++ (id, said_in room.id m) ∷ [];
        },
        rw e refl,
        broadcast-Inv id room.id m (said entry room) s i k,
      )

  module _ (rate : ℕ) (to_upper : ℕ → ℕ) where
    abbrev pub Delivered : Option Posts → Type 0
    Delivered r = (t : Posts) × (r ≡ some t) × PostsInv t

    deliver-Inv :
        (c : ℕ) (p : Poster) (post : Post) (d : ChatMessageDestination) (s : Posts)
        → PostsInv s
        → length p.username ≤ name_len
        → length post.message ≤ message_len
        → Delivered (deliver message_len rate to_upper c p post d s)
    unfolding deliver
    deliver-Inv c p post (to_new_direct name) s i small fits =
        (_, refl, record { rooms = i.rooms; names = i.names })
    deliver-Inv c p post (to_direct id) s i small fits =
        (_, refl, record { rooms = i.rooms; names = i.names })
    deliver-Inv c p post (to_vm id) s i small fits = elim (Option-cases (get_room id s)) [
      | inl a ↦ (s, rw (a, deliver) refl, i)
      | inr (room, a) ↦
          let (t, e, j) = send_message-Inv p post id room s i a small fits in
          (t, rw (a, deliver) e, j)
    ]
    deliver-Inv c p post to_other s i small fits = (s, refl, i)

    -- A message that is not dropped fits the slots of a room.
    kept_fits :
        (p : Poster) (post : Post)
        → is_dropped message_len rate to_upper p post ≡ false
        → length post.message ≤ message_len
    unfolding is_dropped
    kept_fits p post e = ground arith

    pub chat_message-Inv :
        (c : ℕ) (post : Post) (s : Posts)
        → PostsInv s
        → Delivered (chat_message message_len rate to_upper c post s)
    unfolding chat_message
    chat_message-Inv c post s i =
        let p = s.posters c in
        let s1 = record s {
          posters = update s.posters c (record p { last_chat_message = post.now });
        } in
        let i1 : PostsInv s1 = record {
          rooms = i.rooms;
          names = λ d. ground (arith, i.names d, i.names c);
        } in
        elim (Bool-cases (is_dropped message_len rate to_upper p post)) [
          | inl out ↦ (s, rw out refl, i)
          | inr good ↦ elim (Bool-cases (is_empty p.username)) [
            | inl none_yet ↦ (s1, rw (good, chat_message) (rw none_yet refl), i1)
            | inr named ↦
                let (t, e, j) =
                  deliver-Inv c p post post.destination s1 i1 (i.names c) (kept_fits p post good) in
                (t, rw (good, chat_message) (rw named e), j)
          ]
        ]
