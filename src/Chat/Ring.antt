-- ===== src/Chat/Ring.antt =====
-- CollabVmChatRoom.hpp: the ring of messages against the log of everything that was said.
use collab_vm_server.Base.{
  ℕ, zero, suc, ◌+◌, ◌-◌, ◌%◌, ◌≤◌, ◌<◌, min, ◌≡◌, ◌≢◌, refl, sym, ap, ◌∙◌, some, List, [], ◌∷◌,
  arith, length, get_elem?, set, drop, ◌==◌, if◌then◌else◌,
}
use collab_vm_server.Message.{guest, ChatMessage}
use collab_vm_server.Chat.{ChatRoom, collect, get_chat_history}

-- A list read past a write, and a list dropped down to an element.
pub get_elem?-set_self :
    {A : Type 0} (xs : List A) (i : ℕ) (v : A) → i < length xs → get_elem? (set xs i v) i ≡ some v
get_elem?-set_self [] i v h = elim h [ ]
get_elem?-set_self (x ∷ xs) zero v h = refl
get_elem?-set_self (x ∷ xs) (suc i) v h = get_elem?-set_self xs i v (omega arith)

pub get_elem?-set_other :
    {A : Type 0} (xs : List A) (i j : ℕ) (v : A) → i ≢ j → get_elem? (set xs i v) j ≡ get_elem? xs j
get_elem?-set_other [] i j v h = refl
get_elem?-set_other (x ∷ xs) zero zero v h = absurd (h refl)
get_elem?-set_other (x ∷ xs) zero (suc j) v h = refl
get_elem?-set_other (x ∷ xs) (suc i) zero v h = refl
get_elem?-set_other (x ∷ xs) (suc i) (suc j) v h =
    get_elem?-set_other xs i j v (λ e. h (omega arith))

pub get_elem?-lt :
    {A : Type 0} (xs : List A) (i : ℕ)
    → i < length xs
    → (a : A) × (get_elem? xs i ≡ some a) × (drop i xs ≡ a ∷ drop (suc i) xs)
get_elem?-lt [] i h = elim h [ ]
get_elem?-lt (x ∷ xs) zero h = (x, refl, refl)
get_elem?-lt (x ∷ xs) (suc i) h = get_elem?-lt xs i (omega arith)

drop-length : {A : Type 0} (xs : List A) → drop (length xs) xs ≡ []
drop-length [] = refl
drop-length (x ∷ xs) = drop-length xs

-- The room holds the last hundred entries of the log, each at its number modulo a hundred, in slots
-- with texts of the two sizes.
pub record Holds (name_len message_len : ℕ) (log : List ChatMessage) (room : ChatRoom)
    : Type 0 where
  pub slots : length room.messages ≡ 100
  pub counted : room.count ≡ min (length log) 100
  pub offset : room.next_message_offset ≡ length log % 100
  pub kept :
      (j : ℕ)
      → j < length log
      → length log ≤ j + 100
      → get_elem? room.messages (j % 100) ≡ get_elem? log j
  pub sized :
      (i : ℕ) (m : ChatMessage)
      → get_elem? room.messages i ≡ some m
      → (length m.sender ≡ name_len) × (length m.message ≡ message_len) × (m.user_type ≡ guest)

next_slot : (j : ℕ) → (j % 100 + 1) % 100 ≡ suc j % 100
next_slot j = omega arith

collect-drop :
    (n j name_len message_len : ℕ) (log : List ChatMessage) (room : ChatRoom)
    → Holds name_len message_len log room
    → n + j ≡ length log
    → n ≤ 100
    → collect n (j % 100) room.messages ≡ some (drop j log)
unfolding collect
collect-drop zero j name_len message_len log room h e b =
    let q : j ≡ length log = omega (arith, e) in
    ap some (sym (ap (λ (k : ℕ). drop k log) q ∙ drop-length log))
collect-drop (suc n) j name_len message_len log room h e b =
    let (a, g, d) = get_elem?-lt log j (omega arith) in
    let rest = collect-drop n (suc j) name_len message_len log room h (omega arith) (omega arith) in
    rw (h.kept j (omega arith) (omega arith) ∙ g) (rw (h.slots, next_slot j) (rw (rest, d) refl))

start :
    (name_len message_len : ℕ) (log : List ChatMessage) (room : ChatRoom)
    → Holds name_len message_len log room
    → (if room.count == 100 then room.next_message_offset else 0) ≡ (length log - room.count) % 100
start name_len message_len log room h = ground (arith, h.counted, h.offset)

-- The history that a client who joins is sent is the last hundred entries of the log, oldest first.
pub get_chat_history_lem :
    (name_len message_len : ℕ) (log : List ChatMessage) (room : ChatRoom)
    → Holds name_len message_len log room
    → get_chat_history room ≡ some (drop (length log - 100) log)
unfolding get_chat_history
get_chat_history_lem name_len message_len log room h =
    let begin : length log - room.count ≡ length log - 100 = omega (arith, h.counted) in
    rw (start name_len message_len log room h) (
      collect-drop room.count (length log - room.count) name_len message_len log room h
        (omega (arith, h.counted)) (omega (arith, h.counted))
      ∙ ap (λ (k : ℕ). some (drop k log)) begin)
