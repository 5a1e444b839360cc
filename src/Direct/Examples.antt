-- ===== src/Direct/Examples.antt =====
-- CollabVmServer.hpp: a client that writes to a guest.
use collab_vm_server.Base.{ℕ, ◌≡◌, refl, [], ◌∷◌, arith}
use collab_vm_server.Message.{Text}
use collab_vm_server.Direct.{Chats, channel_id, new_chat_channel, chat, send, new_direct, direct}
use collab_vm_server.Direct.Limits.{DirectInv}
use collab_vm_server.Direct.Reach.{start, opens, DirectReach-DirectInv}
use collab_vm_server.Direct.Replies.{new_direct-rooms}

abbrev no_case : ℕ → ℕ
no_case n = n

abbrev ann : Text
ann = 97 ∷ []

abbrev hello : Text
hello = 104 ∷ 105 ∷ []

abbrev at_start : Chats
at_start = record {
  clients = λ c. record { chat_rooms = []; chat_rooms_id = 1 };
  guests = (ann, 7) ∷ [];
  sent = [];
}

DirectReach-DirectInv_example : DirectInv (new_direct no_case 3 ann hello at_start)
DirectReach-DirectInv_example =
    DirectReach-DirectInv no_case (new_direct no_case 3 ann hello at_start)
      (opens 3 ann hello (start ((ann, 7) ∷ [])) (λ d. omega arith))

new_direct-rooms_example :
    let t = new_direct no_case 3 ann hello at_start in
    (t.sent
      ≡ (3, channel_id 1) ∷ (7, new_chat_channel 1 hello) ∷ (3, new_chat_channel 1 hello) ∷ [])
    × (direct 50 3 hello 1 hello t ≡ send 7 (chat 1 hello hello 50) t)
    × (direct 50 7 ann 1 hello t ≡ send 7 (chat 1 ann hello 50) t)
new_direct-rooms_example =
    new_direct-rooms 3 7 hello at_start refl (λ c. (omega arith, tt, tt)) (λ d. omega arith) refl
      refl refl refl no_case ann refl 50 hello ann hello hello
