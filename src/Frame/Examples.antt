-- ===== src/Frame/Examples.antt =====
-- SocketMessage.hpp and CapnpMessageFrameBuilder.hpp: the theorems at concrete segments.
use collab_vm_server.Base.{ℕ, ◌≡◌, some, List, [], ◌∷◌}
use collab_vm_server.Frame.{create_frame}
use collab_vm_server.Frame.Table.{segment_table, fresh_message, IsFramed, create_frame_lem}
use collab_vm_server.Frame.Builder.{build, build_lem}

abbrev two_segments : List (List ℕ)
two_segments = (7 ∷ 8 ∷ 9 ∷ []) ∷ (5 ∷ []) ∷ []

create_frame_lem_example : IsFramed two_segments (create_frame (fresh_message two_segments))
create_frame_lem_example = create_frame_lem two_segments

build_lem_example :
    build (3 ∷ 1 ∷ []) (record { frame = 4 ∷ 4 ∷ []; segment_num = 9 })
    ≡ some (record { frame = segment_table (3 ∷ 1 ∷ []); segment_num = 3 })
build_lem_example = build_lem (3 ∷ 1 ∷ []) (record { frame = 4 ∷ 4 ∷ []; segment_num = 9 })
