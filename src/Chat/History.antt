-- ===== src/Chat/History.antt =====
-- CollabVmChatRoom.hpp: what is said, and the history that a client who joins is sent.
use collab_vm_server.Base.{
  ℕ, zero, suc, ◌+◌, ◌-◌, ◌%◌, ◌≤◌, ◌<◌, min, ◌≡◌, ◌≢◌, refl, sym, ap, ◌∙◌, some, List, [], ◌∷◌,
  ◌++◌, arith, length, get_elem?, set, replicate, leb, ◌==◌, length-set, length-append,
  length-replicate, get_elem?-append_left, get_elem?-append_last, subst, Bool-cases, inl, inr,
}
use collab_vm_server.Message.{Text, UserType, guest, ChatMessage, chat_message}
use collab_vm_server.Chat.{
  ChatRoom, max_chat_message_history, blank_message, new_room, copy_string, fill_slot,
  add_user_message,
}
use collab_vm_server.Chat.Ring.{Holds, get_elem?-set_self, get_elem?-set_other, get_elem?-lt}

-- What the history keeps of a message: the texts are padded to the slot's sizes, and the user type is
-- always the default one.
abbrev pub history_entry : ℕ → ℕ → ℕ → Text → Text → ChatMessage
history_entry name_len message_len timestamp username message = record {
  sender = username ++ replicate (name_len - length username) 0;
  message = message ++ replicate (message_len - length message) 0;
  user_type = guest;
  timestamp = timestamp;
}

length-padded : (n : ℕ) (t : Text) → length t ≤ n → length (t ++ replicate (n - length t) 0) ≡ n
length-padded n t h =
    omega (
      arith,
      length-append t (replicate (n - length t) 0),
      length-replicate {A = ℕ} (n - length t) 0,
    )

copy_string-fits :
    (n : ℕ) (string buffer : Text)
    → length buffer ≡ n
    → length string ≤ n
    → copy_string string buffer ≡ some (string ++ replicate (n - length string) 0)
unfolding copy_string
copy_string-fits n string buffer e h = rw e (ground arith)

-- The room with one slot overwritten.
abbrev pub said : ChatMessage → ChatRoom → ChatRoom
said entry room = record room {
  count = min (room.count + 1) max_chat_message_history;
  messages = set room.messages room.next_message_offset entry;
  next_message_offset = (room.next_message_offset + 1) % max_chat_message_history;
}

written : (a b : ChatMessage) → some a ≡ some b → a ≡ b
written a b e = cc

module _ (name_len message_len : ℕ) (log : List ChatMessage) (room : ChatRoom)
    (h : Holds name_len message_len log room) where
  said-kept :
      (entry : ChatMessage) (j : ℕ)
      → j < length (log ++ entry ∷ [])
      → length (log ++ entry ∷ []) ≤ j + 100
      → get_elem? (said entry room).messages (j % 100) ≡ get_elem? (log ++ entry ∷ []) j
  said-kept entry j lt le =
      let n : length (log ++ entry ∷ []) ≡ length log + 1 = length-append log (entry ∷ []) in
      elim (Bool-cases (leb (length log) j)) [
        | inl last ↦
            let e : j ≡ length log = ground (arith, n) in
            let slot : j % 100 ≡ room.next_message_offset = omega (arith, h.offset, e) in
            rw
              (
                slot,
                get_elem?-set_self room.messages room.next_message_offset entry
                    (omega (arith, h.slots, h.offset)),
              )
              (rw (e, get_elem?-append_last log entry) refl)
        | inr before ↦
            let b : j < length log = ground arith in
            let other : room.next_message_offset ≢ j % 100 = λ e. omega (arith, h.offset, n) in
            get_elem?-set_other room.messages room.next_message_offset (j % 100) entry other
            ∙ h.kept j b (omega (arith, n))
            ∙ sym (get_elem?-append_left log (entry ∷ []) j b)
      ]

  said-Holds :
      (entry : ChatMessage)
      → length entry.sender ≡ name_len
      → length entry.message ≡ message_len
      → entry.user_type ≡ guest
      → Holds name_len message_len (log ++ entry ∷ []) (said entry room)
  said-Holds entry a b c = record {
    slots = length-set room.messages room.next_message_offset entry ∙ h.slots;
    counted = omega (arith, h.counted, length-append log (entry ∷ []));
    offset = omega (arith, h.offset, length-append log (entry ∷ []));
    kept = said-kept entry;
    sized = λ i m g. elim (Bool-cases (i == room.next_message_offset)) [
      | inl same ↦
          let e : i ≡ room.next_message_offset = ground arith in
          let q : entry ≡ m = written entry m (
            sym (
              get_elem?-set_self room.messages room.next_message_offset entry
                (omega (arith, h.slots, h.offset)))
            ∙ ap (get_elem? (said entry room).messages) (sym e)
            ∙ g) in
          subst
            (λ (x : ChatMessage).
              (length x.sender ≡ name_len)
              × (length x.message ≡ message_len)
              × (x.user_type ≡ guest))
            q (a, b, c)
      | inr other ↦ h.sized i m (
          sym
            (get_elem?-set_other room.messages room.next_message_offset i entry (λ e. ground arith))
          ∙ g)
    ];
  }

  -- A message that fits goes to the users as it is, with the sender's rank, and enters the history as
  -- the newest entry, padded and without the rank.
  pub add_user_message-Holds :
      (timestamp : ℕ) (username : Text) (type : UserType) (message : Text)
      → length username ≤ name_len
      → length message ≤ message_len
      → let entry = history_entry name_len message_len timestamp username message in
        (add_user_message timestamp username type message room
          ≡ some (
            said entry room,
            chat_message room.id (record {
              sender = username;
              message = message;
              user_type = type;
              timestamp = timestamp;
            }),
          ))
        × Holds name_len message_len (log ++ entry ∷ []) (said entry room)
  unfolding add_user_message fill_slot
  add_user_message-Holds timestamp username type message small fits =
      let entry = history_entry name_len message_len timestamp username message in
      let (slot, g, d) =
        get_elem?-lt room.messages room.next_message_offset (omega (arith, h.slots, h.offset)) in
      let (a, b, c) = h.sized room.next_message_offset slot g in
      (
        rw g (
            rw (copy_string-fits message_len message slot.message b fits)
              (rw (copy_string-fits name_len username slot.sender a small) (rw c refl))),
        said-Holds entry (length-padded name_len username small)
            (length-padded message_len message fits) refl,
      )

get_elem?-replicate : (n i : ℕ) (a b : ChatMessage) → get_elem? (replicate n a) i ≡ some b → a ≡ b
get_elem?-replicate zero i a b e = cc
get_elem?-replicate (suc n) zero a b e = cc
get_elem?-replicate (suc n) (suc i) a b e = get_elem?-replicate n i a b e

pub new_room-Holds :
    (name_len message_len id : ℕ) → Holds name_len message_len [] (new_room name_len message_len id)
unfolding new_room
new_room-Holds name_len message_len id = record {
  slots = length-replicate 100 (blank_message name_len message_len);
  counted = refl;
  offset = refl;
  kept = λ j lt le. absurd (omega arith);
  sized = λ i m g.
      subst
        (λ (x : ChatMessage).
          (length x.sender ≡ name_len) × (length x.message ≡ message_len) × (x.user_type ≡ guest))
        (get_elem?-replicate 100 i (blank_message name_len message_len) m g)
        (length-replicate name_len 0, length-replicate message_len 0, refl);
}
