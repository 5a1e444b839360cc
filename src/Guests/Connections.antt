-- ===== src/Guests/Connections.antt =====
-- CollabVmServer.hpp and IPData.hpp: the connections of one address against their limit.
use collab_vm_server.Base.{
  ℕ, suc, ◌+◌, ◌%◌, ◌^◌, ◌≡◌, ◌≤◌, ◌<◌, ap, Bool, true, false, not, ltb, arith,
}
use collab_vm_server.Guests.{IpData, on_pre_connect, leave_address}

-- The sockets of an address while the limit is on: those that may go on and those that have been told
-- to close and are not gone yet. Another socket comes only while there are less than 255.
pub data AddressReach (max_connections : ℕ) : (accepted refused : ℕ) → IpData → Type 0 where
  start : AddressReach max_connections 0 0 (record { connections = 0 })
  accepts :
      {accepted refused : ℕ} {a a' : IpData}
      → AddressReach max_connections accepted refused a
      → accepted + refused < 255
      → on_pre_connect true max_connections a ≡ (true, a')
      → AddressReach max_connections (suc accepted) refused a'
  refuses :
      {accepted refused : ℕ} {a a' : IpData}
      → AddressReach max_connections accepted refused a
      → accepted + refused < 255
      → on_pre_connect true max_connections a ≡ (false, a')
      → AddressReach max_connections accepted (suc refused) a'
  accepted_leaves :
      {accepted refused : ℕ} {a : IpData}
      → AddressReach max_connections (suc accepted) refused a
      → AddressReach max_connections accepted refused (leave_address a)
  refused_leaves :
      {accepted refused : ℕ} {a : IpData}
      → AddressReach max_connections accepted (suc refused) a
      → AddressReach max_connections accepted refused (leave_address a)

leave_address-connections :
    (a : IpData) (n : ℕ) → a.connections ≡ suc n → (leave_address a).connections ≡ n
unfolding leave_address
leave_address-connections a n h = ground arith

fits-le : (m n r : ℕ) → r ≡ n → not (ltb m r) ≡ true → n ≤ m
fits-le m n r e h = ground arith

-- While the limit is on and at most 255 sockets of an address are there, the counter counts every one of
-- them, the refused ones too, and never more are let in than the limit says.
pub AddressReach-bounds :
    (max_connections accepted refused : ℕ) (a : IpData)
    → AddressReach max_connections accepted refused a
    → (a.connections ≡ accepted + refused) × (accepted ≤ max_connections)
unfolding on_pre_connect
AddressReach-bounds m n k a start = (omega arith, omega arith)
AddressReach-bounds m n k a (accepts {accepted = p} {a = b} r few e) =
    let (q, l) = AddressReach-bounds m p k b r in
    let fits : not (ltb m ((b.connections + 1) % 2 ^ 8)) ≡ true =
      ap (λ (p : Bool × IpData). p.0) e in
    let count : (b.connections + 1) % 2 ^ 8 ≡ a.connections =
      ap (λ (p : Bool × IpData). p.1.connections) e in
    let small : (b.connections + 1) % 2 ^ 8 ≡ b.connections + 1 = omega (arith, q, few) in
    let room : b.connections + 1 ≤ m =
      fits-le m (b.connections + 1) ((b.connections + 1) % 2 ^ 8) small fits in
    (omega (arith, q, count, small), omega (arith, q, room))
AddressReach-bounds m n k a (refuses {refused = p} {a = b} r few e) =
    let (q, l) = AddressReach-bounds m n p b r in
    let count : (b.connections + 1) % 2 ^ 8 ≡ a.connections =
      ap (λ (p : Bool × IpData). p.1.connections) e in
    (omega (arith, q, few, count), l)
AddressReach-bounds m n k a (accepted_leaves {a = b} r) =
    let (q, l) = AddressReach-bounds m (suc n) k b r in
    (leave_address-connections b (n + k) (omega (arith, q)), omega (arith, l))
AddressReach-bounds m n k a (refused_leaves {a = b} r) =
    let (q, l) = AddressReach-bounds m n (suc k) b r in
    (leave_address-connections b (n + k) (omega (arith, q)), l)
