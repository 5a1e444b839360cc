-- ===== src/Channel/Counts.antt =====
-- UserChannel.hpp: the users of a channel and the count of administrators.
use collab_vm_server.Base.{
  ℕ, ◌+◌, ◌%◌, ◌≡◌, ◌≢◌, refl, sym, ap, ◌∙◌, subst, Bool, true, false, none, some, arith, ◌==◌,
  if◌then◌else◌, Distinct, erase as erase_key, Distinct-append_absent, Distinct-erase,
}
use collab_vm_server.Vote.{u32, inc32, dec32}
use collab_vm_server.Message.{Text, UserType, Message, user_list_remove}
use collab_vm_server.Channel.{
  Channel, ChannelBase, broadcast, insert_user, add_user, remove_user, update_username,
}
use collab_vm_server.Channel.Users.{
  UserData, UserMap, is_admin, is_admin_type, find, emplace, erase, put, keys, count_users,
  find-absent, keys-emplace, keys-erase, count-emplace, count-erase, count-put, find-emplace,
  roster, roster_keys, roster_admins, roster_keys-roster, roster_admins-roster, find-roster,
}

-- No client stands twice in the map, and `admins_count` is the number of administrators in it, as a
-- std::uint32_t holds it.
pub record Counted (c : Channel) : Type 0 where
  pub distinct : Distinct (keys c.users)
  pub admins : c.admins_count ≡ count_users is_admin c.users % u32

inc32-mod : (n m : ℕ) → n ≡ m % u32 → inc32 n ≡ (m + 1) % u32
inc32-mod n m h = omega arith

dec32-mod : (n m : ℕ) → n ≡ (m + 1) % u32 → dec32 n ≡ m % u32
dec32-mod n m h = omega arith

pub insert_user-users :
    (d : UserData) (u : ℕ) (c : Channel) → (insert_user d u c).users ≡ emplace u d c.users
unfolding insert_user
insert_user-users d u c = ground arith

pub insert_user-Counted :
    (d : UserData) (u : ℕ) (c : Channel)
    → find u c.users ≡ none
    → Counted c
    → Counted (insert_user d u c)
unfolding insert_user
insert_user-Counted d u c h k = record {
  distinct = rw (insert_user-users d u c) (
      rw (keys-emplace u d c.users h)
        (Distinct-append_absent u (keys c.users) k.distinct (find-absent u c.users h)));
  admins = ground (
    arith,
    count-emplace is_admin u d c.users h,
    inc32-mod c.admins_count (count_users is_admin c.users) k.admins,
    k.admins,
  );
}

-- A callback that changes neither who is in the channel, nor a rank, nor the count.
pub record KeepsRoster (c c' : Channel) : Type 0 where
  pub roster_eq : roster c'.users ≡ roster c.users
  pub count_eq : c'.admins_count ≡ c.admins_count
  pub id_eq : c'.id ≡ c.id

pub keys-roster : (us vs : UserMap) → roster vs ≡ roster us → keys vs ≡ keys us
keys-roster us vs e = sym (roster_keys-roster vs) ∙ ap roster_keys e ∙ roster_keys-roster us

admins-roster :
    (us vs : UserMap) → roster vs ≡ roster us → count_users is_admin vs ≡ count_users is_admin us
admins-roster us vs e = sym (roster_admins-roster vs) ∙ ap roster_admins e ∙ roster_admins-roster us

pub KeepsRoster-Counted : {c c' : Channel} → KeepsRoster c c' → Counted c → Counted c'
KeepsRoster-Counted {c} {c'} e k = record {
  distinct = subst Distinct (sym (keys-roster c.users c'.users e.roster_eq)) k.distinct;
  admins =
      e.count_eq
      ∙ k.admins
      ∙ ap (λ (n : ℕ). n % u32) (sym (admins-roster c.users c'.users e.roster_eq));
}

-- The channel that `OnRemoveUser` is called with.
abbrev pub discounted : UserData → Channel → Channel
discounted d c = record c {
  admins_count = if is_admin d then dec32 c.admins_count else c.admins_count;
}

broadcast-users : (m : Message) (c : Channel) → (broadcast m c).users ≡ c.users
unfolding broadcast
broadcast-users m c = refl

broadcast-Counted : (m : Message) (c : Channel) → Counted c → Counted (broadcast m c)
unfolding broadcast
broadcast-Counted m c k = record { distinct = k.distinct; admins = k.admins }

-- The channel once the user and its rank are gone.
erased-Counted :
    (u : ℕ) (d e : UserData) (c c' : Channel)
    → find u c.users ≡ some d
    → find u c'.users ≡ some e
    → is_admin e ≡ is_admin d
    → KeepsRoster (discounted d c) c'
    → Counted c
    → Counted (record c' { users = erase u c'.users })
erased-Counted u d e c c' h h' same keep k = record {
  distinct = rw (keys-erase u c'.users) (
      Distinct-erase u (keys c'.users)
        (subst Distinct (sym (keys-roster c.users c'.users keep.roster_eq)) k.distinct));
  admins = ground (
    arith,
    count-erase is_admin u e c'.users h',
    admins-roster c.users c'.users keep.roster_eq,
    dec32-mod c.admins_count (count_users is_admin (erase u c'.users)),
  );
}

module _ {S : Type 0} (base : ChannelBase S)
    (written : (c : Channel) (s : S) → base.channel (base.with_channel c s) ≡ c) where
  open base use {channel, with_channel, on_add_user, on_remove_user}

  -- `AddUser` of a client that is not in the channel: it is found there with the data given, all
  -- others as before, and the count of administrators is right.
  pub add_user-Counted :
      (d : UserData) (u : ℕ) (s : S)
      → (channel (on_add_user u s)).users ≡ (channel s).users
      → (channel (on_add_user u s)).admins_count ≡ (channel s).admins_count
      → find u (channel s).users ≡ none
      → Counted (channel s)
      → Counted (channel (add_user base d u s))
        × ((v : ℕ)
            → find v (channel (add_user base d u s)).users
              ≡ (if v == u then some d else find v (channel s).users))
  unfolding add_user
  add_user-Counted d u s e n h k =
      let s' = on_add_user u s in
      rw (written (insert_user d u (channel s')) s') (
        insert_user-Counted d u (channel s') (rw e h)
            (record { distinct = rw e k.distinct; admins = rw (e, n) k.admins }),
        λ v. rw (insert_user-users d u (channel s'), e) (find-emplace u v d (channel s).users h),
      )

  -- The state that `RemoveUser` leaves when its callback has left `s'`.
  abbrev pub removed : ℕ → UserData → S → S
  removed u d s' =
      let c' = channel s' in
      with_channel
        (broadcast (user_list_remove c'.id d.username) (record c' { users = erase u c'.users })) s'

  module _ (u : ℕ) (d : UserData) (s s' : S) (here : find u (channel s).users ≡ some d)
      (called : on_remove_user u (with_channel (discounted d (channel s)) s) ≡ some s') where
    pub remove_user-eq : remove_user base u s ≡ some (removed u d s')
    unfolding remove_user
    remove_user-eq = rw (here, remove_user) (rw called)

    pub removed-users : (channel (removed u d s')).users ≡ erase u (channel s').users
    removed-users =
        rw
          (written
            (broadcast (user_list_remove (channel s').id d.username)
              (record (channel s') { users = erase u (channel s').users }))
            s')
          (broadcast-users (user_list_remove (channel s').id d.username)
            (record (channel s') { users = erase u (channel s').users }))

    -- `RemoveUser` of a client that is in the channel, where the callback succeeds and keeps the
    -- roster: the client alone is gone, and the count of administrators is right.
    pub remove_user-Counted :
        KeepsRoster (discounted d (channel s)) (channel s')
        → Counted (channel s)
        → (remove_user base u s ≡ some (removed u d s'))
          × Counted (channel (removed u d s'))
          × (keys (channel (removed u d s')).users ≡ erase_key u (keys (channel s).users))
    remove_user-Counted keep k =
        let c' = channel s' in
        let left = record c' { users = erase u c'.users } in
        let message = user_list_remove c'.id d.username in
        let (e, h', same) = find-roster u d (channel s).users c'.users keep.roster_eq here in
        (
          remove_user-eq,
          rw (written (broadcast message left) s') (
              broadcast-Counted message left
                (erased-Counted u d e (channel s) c' here h' same keep k)),
          ap keys removed-users
              ∙ keys-erase u c'.users
              ∙ ap (erase_key u) (keys-roster (channel s).users c'.users keep.roster_eq),
        )

update_username-fields :
    (u : ℕ) (name : Text) (type : UserType) (d : UserData) (c : Channel)
    → find u c.users ≡ some d
    → let d' = record d { user_type = type; username = name } in
      ((update_username u name type c).admins_count ≡ c.admins_count)
      × ((update_username u name type c).users ≡ put u d' c.users)
unfolding update_username broadcast
update_username-fields u name type d c h = (rw (h, update_username), rw (h, update_username))

off_by_one :
    (n m : ℕ) (a b : Bool)
    → a ≢ b
    → m + (if b then 1 else 0) ≡ n + (if a then 1 else 0)
    → n % u32 ≢ m % u32
off_by_one n m true true h e = absurd (h refl)
off_by_one n m true false h e = omega arith
off_by_one n m false true h e = omega arith
off_by_one n m false false h e = absurd (h refl)

-- When a user who is in a channel becomes an administrator, or ceases to be one, the count is not
-- adjusted: it is wrong from then on.
pub update_username-not-Counted :
    (u : ℕ) (name : Text) (type : UserType) (d : UserData) (c : Channel)
    → find u c.users ≡ some d
    → is_admin_type type ≢ is_admin d
    → Counted c
    → ¬ Counted (update_username u name type c)
update_username-not-Counted u name type d c h differs k k' =
    let d' = record d { user_type = type; username = name } in
    let fields = update_username-fields u name type d c h in
    off_by_one (count_users is_admin c.users) (count_users is_admin (put u d' c.users))
      (is_admin_type type) (is_admin d) differs (count-put is_admin u d' d c.users h)
      (sym k.admins
        ∙ sym (fields.0)
        ∙ k'.admins
        ∙ ap (λ (us : UserMap). count_users is_admin us % u32) (fields.1))
