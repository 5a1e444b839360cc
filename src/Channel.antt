-- ===== src/Channel.antt =====
-- UserChannel.hpp. A client is a number, the identity of its `shared_ptr`. The unordered map `users_`
-- is a list of entries, whose order is the map's; `sent` records the messages that are queued, in
-- order, each with its receiver. `TBase` is a record with its two callbacks.
pub mod Users
pub mod Counts
use collab_vm_server.Base.{
  ℕ, zero, suc, ◌+◌, ◌*◌, ◌%◌, Bool, true, false, Option, none, some, List, [], ◌∷◌, ◌++◌, map,
  take, drop, length, leb, ◌==◌, if◌then◌else◌, ◌>>=◌, map_option,
}
use collab_vm_server.Vote.{UserVoteData, inc32, dec32}
use collab_vm_server.Message.{
  Text, UserType, guest, regular, admin, Message, ListedUser, ListedAdmin, user_list,
  admin_user_list, user_list_add, admin_user_list_add, user_list_remove, change_username,
}
use Users.{UserData, is_admin, UserMap, find, emplace, erase, put}

pub record Channel : Type 0 where
  pub id : ℕ
  pub users : UserMap
  pub admins_count : ℕ
  pub sent : List (ℕ × Message)

-- `TBase`: an object that holds a channel and overrides `OnAddUser` and `OnRemoveUser`. `none` is a
-- fault of the callback.
pub record ChannelBase (S : Type 0) : Type 0 where
  pub channel : S → Channel
  pub with_channel : Channel → S → S
  pub on_add_user : ℕ → S → S
  pub on_remove_user : ℕ → S → Option S

-- `TBase = std::nullptr_t`, as for the global chat room.
abbrev pub no_base : ChannelBase Channel
no_base = record {
  channel = λ c. c;
  with_channel = λ c s. c;
  on_add_user = λ u s. s;
  on_remove_user = λ u s. some s;
}

abbrev pub queue_message : ℕ → Message → Channel → Channel
queue_message u m c = record c { sent = c.sent ++ (u, m) ∷ [] }

abbrev pub send_all : Message → UserMap → List (ℕ × Message)
send_all m [] = []
send_all m ((u, d) ∷ us) = (u, m) ∷ send_all m us

-- `BroadcastMessage`.
unfoldable pub broadcast : Message → Channel → Channel
broadcast m c = record c { sent = c.sent ++ send_all m c.users }

-- Eight bytes as `boost::endian::native_to_big` gives them.
abbrev pub big_endian : ℕ → List ℕ → ℕ
big_endian n [] = n
big_endian n (b ∷ bs) = big_endian (n * 256 + b) bs

-- `AddUserToList` for the two element types.
abbrev pub listed_user : UserData → ListedUser
listed_user d = record { username = d.username; user_type = d.user_type }

abbrev pub listed_admin : UserData → ListedAdmin
listed_admin d = record {
  user = listed_user d;
  first = big_endian 0 (take 8 d.ip_address);
  second = big_endian 0 (take 8 (drop 8 d.ip_address));
}

abbrev pub entries_data : UserMap → List UserData
entries_data [] = []
entries_data ((u, d) ∷ us) = d ∷ entries_data us

unfoldable pub create_user_list_message : Channel → Message
create_user_list_message c = user_list c.id (map listed_user (entries_data c.users))

unfoldable pub create_admin_user_list_message : Channel → Message
create_admin_user_list_message c = admin_user_list c.id (map listed_admin (entries_data c.users))

-- The messages of `AddUser` to everybody but the new user.
abbrev pub announce : ℕ → ℕ → UserData → UserMap → List (ℕ × Message)
announce id new data_of_new [] = []
announce id new data_of_new ((v, d) ∷ us) =
    let rest = announce id new data_of_new us in
    if v == new
    then rest
    else (
      v,
      (if is_admin d
          then admin_user_list_add id (listed_admin data_of_new)
          else user_list_add id (listed_user data_of_new)),
    )
      ∷ rest

-- `AddUser` behind the callback.
unfoldable pub insert_user : UserData → ℕ → Channel → Channel
unfolding create_user_list_message create_admin_user_list_message
insert_user d u c =
    let c' = record c {
      users = emplace u d c.users;
      admins_count = if is_admin d then inc32 c.admins_count else c.admins_count;
    } in
    let c'' =
      queue_message u
        (if is_admin d then create_admin_user_list_message c' else create_user_list_message c')
        c' in
    if leb (length c''.users) 1
    then c''
    else record c'' { sent = c''.sent ++ announce c''.id u d c''.users }

module _ {S : Type 0} (base : ChannelBase S) where
  open base use {channel, with_channel, on_add_user, on_remove_user}

  unfoldable pub add_user : UserData → ℕ → S → S
  add_user d u s = let s' = on_add_user u s in with_channel (insert_user d u (channel s')) s'

  -- `RemoveUser` for a user who is in the channel.
  unfoldable pub remove_found : ℕ → UserData → S → Option S
  remove_found u d s =
      let c = channel s in
      let admins = if is_admin d then dec32 c.admins_count else c.admins_count in
      on_remove_user u (with_channel (record c { admins_count = admins }) s) >>= λ s'.
      let c' = channel s' in
      some (
        with_channel
          (broadcast (user_list_remove c'.id d.username) (record c' { users = erase u c'.users }))
          s')

  unfoldable pub remove_user : ℕ → S → Option S
  unfolding remove_found
  remove_user u s = elim (find u (channel s).users) [ none ↦ some s | some d ↦ remove_found u d s ]

-- `update_username` of CollabVmServer.hpp (`SetUserData`): the new name and type of a user, as a
-- channel that it is in takes them.
unfoldable pub update_username : ℕ → Text → UserType → Channel → Channel
update_username u name type c = elim (find u c.users) [
  | none ↦ c
  | some d ↦
      broadcast (change_username d.username name)
        (record c { users = put u (record d { user_type = type; username = name }) c.users })
]
