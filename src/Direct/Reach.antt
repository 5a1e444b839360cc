-- ===== src/Direct/Reach.antt =====
-- CollabVmServer.hpp: the rooms that messages between clients bring about.
use collab_vm_server.Base.{
  ℕ, ◌+◌, ◌^◌, ◌<◌, sym, subst, List, [], ◌==◌, leb, length, arith, Bool-cases, Option-cases, inl,
  inr,
}
use collab_vm_server.Message.{Text}
use collab_vm_server.Guests.{find_guest}
use collab_vm_server.Direct.{
  Room, Chats, find_peer, find_room, set_rooms, next_id, emplace, complete_room, open_for_recipient,
  open_room, new_direct, direct, max_rooms,
}
use collab_vm_server.Direct.Limits.{
  DirectInv, Unwrapped, set_peer_id-Inv, erase_room-Inv, new_room, new_room-Inv,
}

complete_room-Inv :
    (c recipient sender_id recipient_id : ℕ) (text : Text) (s : Chats)
    → DirectInv s
    → DirectInv (complete_room c recipient sender_id recipient_id text s)
unfolding complete_room
complete_room-Inv c recipient sender_id recipient_id text s i =
    elim (Option-cases (find_room sender_id (s.clients c).chat_rooms)) [
      | inl e ↦ rw (e, complete_room) i
      | inr (r, e) ↦ elim (Bool-cases (r.peer_id == 0)) [
        | inl z ↦ rw (e, complete_room) (rw z (set_peer_id-Inv c sender_id recipient_id s i))
        | inr z ↦ rw (e, complete_room) (rw z i)
      ]
    ]

open_for_recipient-Inv :
    (c recipient sender_id : ℕ) (text : Text) (s : Chats)
    → Unwrapped recipient s
    → DirectInv s
    → DirectInv (open_for_recipient c recipient sender_id text s)
unfolding open_for_recipient
open_for_recipient-Inv c recipient sender_id text s u i =
    elim (Option-cases (find_peer c (s.clients recipient).chat_rooms)) [
      | inr ((id, r), e) ↦ elim (Bool-cases (r.peer_id == 0)) [
        | inl z ↦ rw (e, open_for_recipient) (rw z (set_peer_id-Inv recipient id sender_id s i))
        | inr z ↦ rw (e, open_for_recipient) (rw z i)
      ]
      | inl e ↦ elim (Bool-cases (leb max_rooms (length (s.clients recipient).chat_rooms))) [
        | inl full ↦ rw (e, open_for_recipient) (rw full (erase_room-Inv c sender_id s i))
        | inr few ↦
            let rid = (s.clients recipient).chat_rooms_id in
            let r : Room = record { peer = recipient; peer_id = sender_id } in
            rw (e, open_for_recipient)
              (rw few (
                complete_room-Inv c recipient sender_id rid text
                  (set_rooms recipient (emplace rid r (s.clients recipient).chat_rooms)
                    (next_id recipient s))
                  (new_room-Inv recipient r s few u i)))
      ]
    ]

-- No counter of rooms is about to wrap.
abbrev pub Early : Chats → Type 0
Early s = (d : ℕ) → (s.clients d).chat_rooms_id + 2 < 2 ^ 32

Early-room :
    (c d : ℕ) (r : Room) (s : Chats)
    → Early s
    → DirectInv s
    → Unwrapped d
        (set_rooms c (emplace (s.clients c).chat_rooms_id r (s.clients c).chat_rooms) (next_id c s))
Early-room c d r s early i =
    let u : Unwrapped c s = omega (arith, early c) in
    subst (Unwrapped d) (sym (new_room c r s (i c) u)) (elim (Bool-cases (d == c)) [
      | inl e ↦ rw e (omega (arith, early c))
      | inr e ↦ rw e (omega (arith, early d))
    ])

open_room-Inv :
    (c recipient : ℕ) (text : Text) (s : Chats)
    → Early s
    → DirectInv s
    → DirectInv (open_room c recipient text s)
unfolding open_room
open_room-Inv c recipient text s early i =
    elim (Bool-cases (leb max_rooms (length (s.clients c).chat_rooms))) [
      | inl full ↦ rw full i
      | inr few ↦ elim (Option-cases (find_peer recipient (s.clients c).chat_rooms)) [
        | inr ((id, r), e) ↦ rw few (rw (e, open_room) i)
        | inl e ↦
            let r : Room = record { peer = recipient; peer_id = 0 } in
            let id = (s.clients c).chat_rooms_id in
            rw few (
              rw e (
                open_for_recipient-Inv c recipient id text
                  (set_rooms c (emplace id r (s.clients c).chat_rooms) (next_id c s))
                  (Early-room c recipient r s early i)
                  (new_room-Inv c r s few (omega (arith, early c)) i)))
      ]
    ]

module _ (to_upper : ℕ → ℕ) where
  -- Guests come and go as they like.
  pub data DirectReach : Chats → Type 0 where
    start :
        (guests : List (Text × ℕ))
        → DirectReach (record {
          clients = λ c. record { chat_rooms = []; chat_rooms_id = 1 };
          guests = guests;
          sent = [];
        })
    moves :
        (guests : List (Text × ℕ)) {s : Chats}
        → DirectReach s
        → DirectReach (record s { guests = guests })
    opens :
        (c : ℕ) (name text : Text) {s : Chats}
        → DirectReach s
        → Early s
        → DirectReach (new_direct to_upper c name text s)
    writes :
        (now c : ℕ) (username : Text) (id : ℕ) (text : Text) {s : Chats}
        → DirectReach s
        → DirectReach (direct now c username id text s)

  -- As long as no counter of rooms is about to wrap, whatever clients write to one another and whichever
  -- guests there are: every client has at most ten private rooms, with different ids, all below its
  -- counter.
  pub DirectReach-DirectInv : (s : Chats) → DirectReach s → DirectInv s
  unfolding new_direct direct
  DirectReach-DirectInv s (start guests) = λ c. (omega arith, tt, tt)
  DirectReach-DirectInv t (moves guests {s} r) = DirectReach-DirectInv s r
  DirectReach-DirectInv t (opens c name text {s} r early) =
      elim (Option-cases (find_guest to_upper name s.guests)) [
        | inl e ↦ rw (e, new_direct) (DirectReach-DirectInv s r)
        | inr (recipient, e) ↦
            rw (e, new_direct) (open_room-Inv c recipient text s early (DirectReach-DirectInv s r))
      ]
  DirectReach-DirectInv t (writes now c username id text {s} r) =
      elim (Option-cases (find_room id (s.clients c).chat_rooms)) [
        | inl e ↦ rw (e, direct) (DirectReach-DirectInv s r)
        | inr (q, e) ↦ rw (e, direct) (DirectReach-DirectInv s r)
      ]
