-- ===== src/Outbox/Examples.antt =====
-- CollabVmServer.hpp: the order of a client's messages at a concrete run.
use collab_vm_server.Base.{List, [], ◌∷◌, ◌++◌, false, refl}
use collab_vm_server.Outbox.{new_outbox}
use collab_vm_server.Outbox.Order.{
  OutboxOp, queues, batches, completes, outbox_run, all_queued, Sends, outbox_run-Sends,
}

-- Two messages, a batch of two, the end of the first write, and one more message.
abbrev session : List OutboxOp
session = queues 1 ∷ queues 2 ∷ batches (3 ∷ 4 ∷ []) ∷ completes false ∷ queues 5 ∷ []

new_outbox-Sends : Sends [] new_outbox
new_outbox-Sends = record {
  order = refl;
  idle = λ e. (refl, refl, refl);
  busy = λ e. absurd (cc);
  failed = λ e. absurd (cc);
}

outbox_run-Sends_example : Sends ([] ++ all_queued session) (outbox_run session new_outbox)
outbox_run-Sends_example = outbox_run-Sends session [] new_outbox new_outbox-Sends
