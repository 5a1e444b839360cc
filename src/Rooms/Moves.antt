-- ===== src/Rooms/Moves.antt =====
-- CollabVmServer.hpp: joining and leaving keep the clients in the channels that their flags say.
use collab_vm_server.Base.{
  ℕ, ◌+◌, ◌≡◌, ◌≢◌, refl, fun_ext, sym, ap, ◌∙◌, subst, Bool, true, false, not, ◌&&◌, Option, none,
  List, ◌==◌, ==_refl, update, if◌then◌else◌, Bool-cases, Option-cases, inl, inr, arith,
}
use collab_vm_server.VmList.{erase_viewer}
use collab_vm_server.Panel.Viewers.{count, once, count-erase_viewer}
use collab_vm_server.Rooms.{
  RoomFlags, Rooms, leave_machine, enter_channel, connect_to_channel, leave_rest, leave_channels,
}
use collab_vm_server.Rooms.Places.{
  placed, RoomsInv, Settled, once_minus, leave_machine_self, leave_machine_other, leave_machine-eq,
  enter_channel_other, enter_channel_self, enter_channel-disallow_guests, enter_channel-clients,
}

-- One client has other flags and other places, and they agree.
moved-RoomsInv :
    (s t : Rooms) (c : ℕ) (k : RoomFlags)
    → RoomsInv s
    → t.clients ≡ update s.clients c k
    → t.disallow_guests ≡ s.disallow_guests
    → ((d n : ℕ) → (d == c) ≡ false → count d (t.members n) ≡ count d (s.members n))
    → ((n : ℕ) → count c (t.members n) ≡ once (placed k n))
    → ((k.connected_vm_id == 0) ≡ false → s.disallow_guests k.connected_vm_id ≢ none)
    → RoomsInv t
moved-RoomsInv s t c k i flags machines others self there = record {
  places = λ d n. elim (Bool-cases (d == c)) [
    | inl here ↦
        let e : c ≡ d = ground arith in
        subst (λ x. count x (t.members n) ≡ once (placed k n)) e (self n)
        ∙ ap (λ x. once (placed x n)) (sym (mine d here))
    | inr other ↦
        others d n other ∙ i.places d n ∙ ap (λ x. once (placed x n)) (sym (theirs d other))
  ];
  machine = λ d.
      subst
        (λ (f : ℕ → Option Bool).
          ((t.clients d).connected_vm_id == 0) ≡ false → f (t.clients d).connected_vm_id ≢ none)
        (sym machines)
        (elim (Bool-cases (d == c)) [
          | inl here ↦ subst Machine (sym (mine d here)) there
          | inr other ↦ subst Machine (sym (theirs d other)) (i.machine d)
        ]);
}
  where
    Machine : RoomFlags → Type 0
    Machine x = (x.connected_vm_id == 0) ≡ false → s.disallow_guests x.connected_vm_id ≢ none

    mine : (d : ℕ) → (d == c) ≡ true → t.clients d ≡ k
    mine d h = ap (λ f. f d) flags ∙ rw h refl

    theirs : (d : ℕ) → (d == c) ≡ false → t.clients d ≡ s.clients d
    theirs d h = ap (λ f. f d) flags ∙ rw h refl

RoomsInv-Settled : (c : ℕ) (s : Rooms) → RoomsInv s → Settled c s
RoomsInv-Settled c s i = (λ m h. i.places c m, i.machine c)

enter_machine-RoomsInv :
    (c m : ℕ) (s : Rooms)
    → RoomsInv s
    → (s.clients c).present ≡ true
    → (m == 0) ≡ false
    → s.disallow_guests m ≢ none
    → RoomsInv (enter_channel c m s)
enter_machine-RoomsInv c m s i here nonzero there =
    moved-RoomsInv s (enter_channel c m s) c (record (s.clients c) { connected_vm_id = m }) i
      (enter_channel-clients c m s) (enter_channel-disallow_guests c m s)
      (λ d n o. enter_channel_other c d m n s o)
      (λ n.
        enter_channel_self c m n s (RoomsInv-Settled c s i)
        ∙ in_place (s.clients c) n here (i.places c n))
      (λ h. there)
  where
    in_place :
        (k : RoomFlags) (n : ℕ)
        → k.present ≡ true
        → count c (s.members n) ≡ once (placed k n)
        → (if n == 0 then count c (s.members n) else 0) + once (n == m)
          ≡ once (placed (record k { connected_vm_id = m }) n)
    in_place k n p q = ground arith

enter_global-RoomsInv :
    (c : ℕ) (s : Rooms)
    → RoomsInv s
    → (s.clients c).present ≡ true
    → (s.clients c).is_in_global_chat ≡ false
    → RoomsInv (
        enter_channel c 0 (record s {
          clients = update s.clients c (record (s.clients c) { is_in_global_chat = true });
        }))
enter_global-RoomsInv c s i here outside =
    let k = record (s.clients c) { is_in_global_chat = true } in
    let t = record s { clients = update s.clients c k } in
    let now : t.clients c ≡ k = rw (==_refl c) refl in
    moved-RoomsInv s (enter_channel c 0 t) c (record k { connected_vm_id = 0 }) i
      (enter_channel-clients c 0 t ∙ fun_ext (λ d. overwritten k now d))
      (enter_channel-disallow_guests c 0 t) (λ d n o. enter_channel_other c d 0 n t o)
      (λ n.
        enter_channel_self c 0 n t (settled k now)
        ∙ in_place (s.clients c) n here outside (i.places c n))
      (λ h. absurd (cc h))
  where
    overwritten :
        (k : RoomFlags)
        → update s.clients c k c ≡ k
        → (d : ℕ)
        → update
            (update s.clients c k)
            c
            (record (update s.clients c k c) { connected_vm_id = 0 })
            d
          ≡ update s.clients c (record k { connected_vm_id = 0 }) d
    overwritten k now d = elim (Bool-cases (d == c)) [
      | inl h ↦ rw h (ap (λ (x : RoomFlags). record x { connected_vm_id = 0 }) now)
      | inr h ↦ rw h refl
    ]

    same_place :
        (k : RoomFlags) (m : ℕ)
        → (m == 0) ≡ false
        → once (placed k m) ≡ once (placed (record k { is_in_global_chat = true }) m)
    same_place k m h = ground arith

    settled :
        (k : RoomFlags)
        → update s.clients c (record (s.clients c) { is_in_global_chat = true }) c
          ≡ record (s.clients c) { is_in_global_chat = true }
        → Settled c (record s {
          clients = update s.clients c (record (s.clients c) { is_in_global_chat = true });
        })
    settled k now = (
      λ m h. i.places c m ∙ same_place (s.clients c) m h ∙ ap (λ x. once (placed x m)) (sym now),
      subst
          (λ (x : RoomFlags).
            (x.connected_vm_id == 0) ≡ false → s.disallow_guests x.connected_vm_id ≢ none)
          (sym now) (i.machine c),
    )

    in_place :
        (k : RoomFlags) (n : ℕ)
        → k.present ≡ true
        → k.is_in_global_chat ≡ false
        → count c (s.members n) ≡ once (placed k n)
        → (if n == 0 then count c (s.members n) else 0) + once (n == 0)
          ≡ once (placed (record k { is_in_global_chat = true; connected_vm_id = 0 }) n)
    in_place k n p o q = ground arith

-- A request to join a channel, whatever becomes of it.
pub connect_to_channel-RoomsInv :
    (c m : ℕ) (s : Rooms)
    → RoomsInv s
    → (s.clients c).present ≡ true
    → RoomsInv (connect_to_channel c m s)
unfolding connect_to_channel
connect_to_channel-RoomsInv c m s i here = elim (Bool-cases (m == 0)) [
  | inl zero ↦ elim (Bool-cases (s.clients c).is_in_global_chat) [
    | inl inside ↦ rw (zero, inside) i
    | inr outside ↦
        let e : 0 ≡ m = ground arith in
        let joined = enter_global-RoomsInv c s i here outside in
        rw (zero, outside)
          (subst
            (λ n. RoomsInv (
              enter_channel c n (record s {
                clients = update s.clients c (record (s.clients c) { is_in_global_chat = true });
              })))
            e joined)
  ]
  | inr nonzero ↦ elim (Option-cases (s.disallow_guests m)) [
    | inl e ↦ rw (nonzero, e) (record { places = i.places; machine = i.machine })
    | inr (d, e) ↦ elim (Bool-cases (d && not (s.clients c).is_logged_in)) [
      | inl refused ↦ rw (nonzero, e, refused) (record { places = i.places; machine = i.machine })
      | inr let_in ↦
          rw (nonzero, e, let_in) (enter_machine-RoomsInv c m s i here nonzero (λ q. absurd (cc)))
    ]
  ]
]

pub leave_channels-RoomsInv :
    (c : ℕ) (s : Rooms) → RoomsInv s → (s.clients c).present ≡ true → RoomsInv (leave_channels c s)
unfolding leave_channels
leave_channels-RoomsInv c s i here =
    subst RoomsInv (sym (ap (leave_rest c) (leave_machine-eq c s)))
      (elim (Bool-cases (s.clients c).is_in_global_chat) [
        | inl inside ↦ rw inside (
            moved-RoomsInv s
              (record s {
                members = update after 0 (erase_viewer c (after 0));
                clients = update s.clients c gone;
              })
              c gone i refl refl (λ d n o. erased_other d n o ∙ leave_machine_other c d n s o)
              erased_self (i.machine c))
        | inr outside ↦ rw outside (
            moved-RoomsInv s (record s { members = after; clients = update s.clients c gone }) c
              gone i refl refl (λ d n o. leave_machine_other c d n s o) (not_there outside)
              (i.machine c))
      ])
  where
    gone : RoomFlags
    gone = record (s.clients c) { present = false }

    after : ℕ → List ℕ
    after = (leave_machine c s).members

    settled : Settled c s
    settled = RoomsInv-Settled c s i

    erased_other :
        (d n : ℕ)
        → (d == c) ≡ false
        → count d (update after 0 (erase_viewer c (after 0)) n) ≡ count d (after n)
    erased_other d n o = elim (Bool-cases (n == 0)) [
      | inl zero ↦
          let e : 0 ≡ n = ground arith in
          let flipped : (c == d) ≡ false = ground arith in
          rw zero (
            count-erase_viewer d c (after 0)
            ∙ rw flipped (omega (arith, ap (λ k. count d (after k)) e)))
      | inr nonzero ↦ rw nonzero refl
    ]

    erased_self : (n : ℕ) → count c (update after 0 (erase_viewer c (after 0)) n) ≡ 0
    erased_self n = elim (Bool-cases (n == 0)) [
      | inl zero ↦ rw zero (
          count-erase_viewer c c (after 0)
          ∙ rw (==_refl c, leave_machine_self c 0 s settled, i.places c 0)
              (once_minus (placed (s.clients c) 0)))
      | inr nonzero ↦ rw nonzero (leave_machine_self c n s settled ∙ rw nonzero refl)
    ]

    not_there : (s.clients c).is_in_global_chat ≡ false → (n : ℕ) → count c (after n) ≡ 0
    not_there outside n = elim (Bool-cases (n == 0)) [
      | inl zero ↦
          leave_machine_self c n s settled
          ∙ rw zero (i.places c n ∙ unplaced (s.clients c) outside zero)
      | inr nonzero ↦ leave_machine_self c n s settled ∙ rw nonzero refl
    ]
      where
        unplaced :
            (k : RoomFlags) → k.is_in_global_chat ≡ false → (n == 0) ≡ true → once (placed k n) ≡ 0
        unplaced k o z = ground arith
