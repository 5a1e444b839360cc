-- ===== src/Outbox.antt =====
-- CollabVmServer.hpp (`CollabVmSocket`): the messages that a client's socket is to send. A message is a
-- number. `writes` are the calls of `WriteMessage`, each with the messages that it is given, and
-- `outstanding` counts those whose handler has not run: a parameter of the environment.
pub mod Order
mod Examples
use collab_vm_server.Base.{
  is_empty, ℕ, zero, suc, ◌+◌, ◌-◌, Bool, true, false, not, ◌&&◌, List, [], ◌∷◌, ◌++◌, length,
  if◌then◌else◌,
}

pub record Outbox : Type 0 where
  pub send_queue : List ℕ
  pub sending : Bool
  pub writes : List (List ℕ)
  pub outstanding : ℕ
  pub closed : Bool

abbrev pub new_outbox : Outbox
new_outbox = record {
  send_queue = [];
  sending = false;
  writes = [];
  outstanding = 0;
  closed = false;
}

-- `TSocket::WriteMessage`.
abbrev pub write_message : List ℕ → Outbox → Outbox
write_message ms o = record o { writes = o.writes ++ ms ∷ []; outstanding = o.outstanding + 1 }

abbrev pub send_message : ℕ → Outbox → Outbox
send_message m o = write_message (m ∷ []) o

-- All messages of the queue in one write.
abbrev pub send_message_batch : Outbox → Outbox
send_message_batch o = write_message o.send_queue (record o { send_queue = [] })

unfoldable pub send_message_callback : Bool → Outbox → Outbox
send_message_callback error_code o =
    if error_code then record o { closed = true } else elim o.send_queue [
      | [] ↦ record o { sending = false }
      | m ∷ ms ↦ elim ms [
        | [] ↦ record (send_message m o) { send_queue = [] }
        | n ∷ ns ↦ send_message_batch o
      ]
    ]

unfoldable pub queue_message : ℕ → Outbox → Outbox
queue_message m o =
    if o.sending
    then record o { send_queue = o.send_queue ++ m ∷ [] }
    else send_message m (record o { sending = true })

-- `ms` are the messages that the callback queues.
unfoldable pub queue_message_batch : List ℕ → Outbox → Outbox
queue_message_batch ms o =
    let o' = record o { send_queue = o.send_queue ++ ms } in
    if not (is_empty o'.send_queue) && not o'.sending
    then send_message_batch (record o' { sending = true })
    else o'
