-- ===== src/Rooms/Places.antt =====
-- CollabVmServer.hpp: a client is in the channels that its flags say, once.
use collab_vm_server.Base.{
  ℕ, ◌+◌, ◌-◌, ◌≡◌, ◌≢◌, refl, ap, ◌∙◌, subst, Bool, true, false, not, none, ◌==◌, ==_refl, update,
  if◌then◌else◌, Bool-cases, Option-cases, inl, inr, arith,
}
use collab_vm_server.VmList.{erase_viewer}
use collab_vm_server.Panel.Viewers.{count, once, count-append, count-erase_viewer}
use collab_vm_server.Rooms.{RoomFlags, Rooms, leave_machine, enter_channel}

-- The channels in which the flags place a client.
abbrev pub placed : RoomFlags → ℕ → Bool
placed k m =
    if not k.present then false else if m == 0 then k.is_in_global_chat else k.connected_vm_id == m

pub record RoomsInv (s : Rooms) : Type 0 where
  pub places : (c m : ℕ) → count c (s.members m) ≡ once (placed (s.clients c) m)
  -- A client's machine is there.
  pub machine :
      (c : ℕ)
      → ((s.clients c).connected_vm_id == 0) ≡ false
      → s.disallow_guests (s.clients c).connected_vm_id ≢ none

-- What `leave_machine` leaves of a client's places: the global chat room.
-- The client is in the channel of its machine, once, and the machine is there.
abbrev pub Settled : ℕ → Rooms → Type 0
Settled c s =
    (((m : ℕ) → (m == 0) ≡ false → count c (s.members m) ≡ once (placed (s.clients c) m))
      × (((s.clients c).connected_vm_id == 0) ≡ false
          → s.disallow_guests (s.clients c).connected_vm_id ≢ none))

pub once_minus : (b : Bool) → once b - 1 ≡ 0
once_minus true = refl
once_minus false = refl

nowhere :
    (k : RoomFlags) (m : ℕ)
    → (m == 0) ≡ false
    → (m == k.connected_vm_id) ≡ false
    → once (placed k m) ≡ 0
nowhere k m h o = ground arith

pub leave_machine_self :
    (c m : ℕ) (s : Rooms)
    → Settled c s
    → count c ((leave_machine c s).members m) ≡ (if m == 0 then count c (s.members m) else 0)
leave_machine_self c m s (places, machine) =
    elim (Bool-cases ((s.clients c).connected_vm_id == 0)) [
      | inl h ↦ rw h (unmoved (s.clients c) refl h)
      | inr h ↦ elim (Option-cases (s.disallow_guests (s.clients c).connected_vm_id)) [
        | inl e ↦ absurd (machine h e)
        | inr (x, e) ↦ rw (h, e) (left (s.clients c) refl h)
      ]
    ]
  where
    outside :
        (k : RoomFlags)
        → k ≡ s.clients c
        → (m == k.connected_vm_id) ≡ false
        → count c (s.members m) ≡ (if m == 0 then count c (s.members m) else 0)
    outside k e h = elim (Bool-cases (m == 0)) [
      | inl zero ↦ rw zero refl
      | inr nonzero ↦
          rw nonzero
            (places m nonzero ∙ subst (λ x. once (placed x m) ≡ 0) e (nowhere k m nonzero h))
    ]

    unmoved :
        (k : RoomFlags)
        → k ≡ s.clients c
        → (k.connected_vm_id == 0) ≡ true
        → count c (s.members m) ≡ (if m == 0 then count c (s.members m) else 0)
    unmoved k e h = elim (Bool-cases (m == 0)) [
      | inl zero ↦ rw zero refl
      | inr nonzero ↦ outside k e (ground arith)
    ]

    left :
        (k : RoomFlags)
        → k ≡ s.clients c
        → (k.connected_vm_id == 0) ≡ false
        → count c
            (update s.members k.connected_vm_id (erase_viewer c (s.members k.connected_vm_id)) m)
          ≡ (if m == 0 then count c (s.members m) else 0)
    left k e h = elim (Bool-cases (m == k.connected_vm_id)) [
      | inl here ↦
          let nonzero : (m == 0) ≡ false = ground arith in
          rw (here, nonzero)
            (count-erase_viewer c c (s.members k.connected_vm_id)
              ∙ rw (==_refl c, places k.connected_vm_id h)
                  (once_minus (placed (s.clients c) k.connected_vm_id)))
      | inr other ↦ rw other (outside k e other)
    ]

pub leave_machine_other :
    (c d m : ℕ) (s : Rooms)
    → (d == c) ≡ false
    → count d ((leave_machine c s).members m) ≡ count d (s.members m)
leave_machine_other c d m s other = elim (Bool-cases ((s.clients c).connected_vm_id == 0)) [
  | inl h ↦ rw h refl
  | inr h ↦ elim (Option-cases (s.disallow_guests (s.clients c).connected_vm_id)) [
    | inl e ↦ rw (h, e) refl
    | inr (x, e) ↦ rw (h, e) (kept (s.clients c).connected_vm_id)
  ]
]
  where
    kept :
        (id : ℕ)
        → count d (update s.members id (erase_viewer c (s.members id)) m) ≡ count d (s.members m)
    kept id = elim (Bool-cases (m == id)) [
      | inl here ↦
          let e : id ≡ m = ground arith in
          let flipped : (c == d) ≡ false = ground arith in
          rw here (
            count-erase_viewer d c (s.members id)
            ∙ rw flipped (omega (arith, ap (λ n. count d (s.members n)) e)))
      | inr elsewhere ↦ rw elsewhere refl
    ]

-- All that `leave_machine` changes is who is where.
pub leave_machine-eq :
    (c : ℕ) (s : Rooms) → leave_machine c s ≡ record s { members = (leave_machine c s).members }
leave_machine-eq c s = elim (Bool-cases ((s.clients c).connected_vm_id == 0)) [
  | inl h ↦ rw h refl
  | inr h ↦ elim (Option-cases (s.disallow_guests (s.clients c).connected_vm_id)) [
    | inl e ↦ rw (h, e) refl
    | inr (x, e) ↦ rw (h, e) refl
  ]
]

leave_machine-clients : (c : ℕ) (s : Rooms) → (leave_machine c s).clients ≡ s.clients
leave_machine-clients c s = ap (λ (r : Rooms). r.clients) (leave_machine-eq c s)

pub leave_machine-disallow_guests :
    (c : ℕ) (s : Rooms) → (leave_machine c s).disallow_guests ≡ s.disallow_guests
leave_machine-disallow_guests c s = ap (λ (r : Rooms). r.disallow_guests) (leave_machine-eq c s)

-- The counts after a client has entered a channel.
pub enter_channel_other :
    (c d m n : ℕ) (s : Rooms)
    → (d == c) ≡ false
    → count d ((enter_channel c m s).members n) ≡ count d (s.members n)
unfolding enter_channel
enter_channel_other c d m n s other = elim (Bool-cases (n == m)) [
  | inl here ↦
      let e : m ≡ n = ground arith in
      let flipped : (c == d) ≡ false = ground arith in
      rw here (
        count-append d c ((leave_machine c s).members m)
        ∙ rw flipped
            (omega (arith, leave_machine_other c d m s other, ap (λ k. count d (s.members k)) e)))
  | inr elsewhere ↦ rw elsewhere (leave_machine_other c d n s other)
]

pub enter_channel_self :
    (c m n : ℕ) (s : Rooms)
    → Settled c s
    → count c ((enter_channel c m s).members n)
      ≡ (if n == 0 then count c (s.members n) else 0) + once (n == m)
unfolding enter_channel
enter_channel_self c m n s i = elim (Bool-cases (n == m)) [
  | inl here ↦
      let e : m ≡ n = ground arith in
      rw here (
        count-append c c ((leave_machine c s).members m)
        ∙ rw (==_refl c) (
            omega (
              arith,
              leave_machine_self c n s i,
              ap (λ k. count c ((leave_machine c s).members k)) e,
            )))
  | inr elsewhere ↦ rw elsewhere (omega (arith, leave_machine_self c n s i))
]

pub enter_channel-disallow_guests :
    (c m : ℕ) (s : Rooms) → (enter_channel c m s).disallow_guests ≡ s.disallow_guests
unfolding enter_channel
enter_channel-disallow_guests c m s = leave_machine-disallow_guests c s

pub enter_channel-clients :
    (c m : ℕ) (s : Rooms)
    → (enter_channel c m s).clients
      ≡ update s.clients c (record (s.clients c) { connected_vm_id = m })
unfolding enter_channel
enter_channel-clients c m s =
    ap (λ f. update f c (record (f c) { connected_vm_id = m })) (leave_machine-clients c s)
