-- ===== src/Rooms/Examples.antt =====
-- CollabVmServer.hpp: a client that joins the global chat room and then a machine.
use collab_vm_server.Base.{refl, true, false, some, []}
use collab_vm_server.Rooms.{Rooms, connect_to_channel, enter_channel}
use collab_vm_server.Rooms.Places.{RoomsInv}
use collab_vm_server.Rooms.Reach.{new_client, start, joins, RoomsReach-RoomsInv}

abbrev at_start : Rooms
at_start = record {
  clients = λ c. new_client false true;
  members = λ m. [];
  disallow_guests = λ m. some false;
  responses = [];
}

RoomsReach-RoomsInv_example : RoomsInv (connect_to_channel 3 7 (connect_to_channel 3 0 at_start))
unfolding connect_to_channel enter_channel
RoomsReach-RoomsInv_example =
    RoomsReach-RoomsInv (connect_to_channel 3 7 (connect_to_channel 3 0 at_start))
      (joins 3 7 (joins 3 0 (start (λ c. false) (λ c. true) (λ m. some false)) refl) refl)
