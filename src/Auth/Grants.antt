-- ===== src/Auth/Grants.antt =====
-- CollabVmServer.hpp: who is logged in, and as whom.
use collab_vm_server.Base.{
  ℕ, ◌≡◌, ◌⊎◌, inl, inr, refl, sym, ap, subst, ◌∙◌, Bool, true, false, none, some, List, [], ◌∷◌,
  ◌++◌, ◌==◌, ==_iff, ==_refl, update, is_empty, Bool-cases, Option-cases, All,
}
use collab_vm_server.Message.{Text, text_eq}
use collab_vm_server.Accounts.{Database, any, create_session}
use collab_vm_server.Auth.{
  Reply, Socket, Auth, Surroundings, reply, set_socket, set_session_id, open_session,
}
use collab_vm_server.Auth.Rows.{Keyed, Grows}
use collab_vm_server.Auth.Tables.{Entitled, create_session-Grows}

-- A client that is logged in has an account of its name, and one with an administrator's right if it
-- has that right itself.
abbrev pub Holds : Socket → Database → Type 0
Holds k db =
    (k.is_logged_in ≡ true → Entitled k.username k.is_admin db)
    × (k.is_admin ≡ true → k.is_logged_in ≡ true)

pub record AuthInv (s : Auth) : Type 0 where
  pub keyed : Keyed s.db
  pub holds : (c : ℕ) → Holds (s.sockets c) s.db
  -- A session is that of a client that is logged in.
  pub sessions : All (λ (e : Text × ℕ). (s.sockets e.1).is_logged_in ≡ true) s.sessions

pub reply-AuthInv : (c : ℕ) (r : Reply) (s : Auth) → AuthInv s → AuthInv (reply c r s)
reply-AuthInv c r s i = record { keyed = i.keyed; holds = i.holds; sessions = i.sessions }

Holds-Grows : (k : Socket) (db db' : Database) → Grows db db' → Holds k db → Holds k db'
Holds-Grows k db db' g (h, a) =
    (λ l. (g.names k.username (h l).0, λ x. g.admins k.username ((h l).1 x)), a)

pub grow-AuthInv :
    (db' : Database) (s : Auth) → Grows s.db db' → AuthInv s → AuthInv (record s { db = db' })
grow-AuthInv db' s g i = record {
  keyed = g.keyed i.keyed;
  holds = λ c. Holds-Grows (s.sockets c) s.db db' g (i.holds c);
  sessions = i.sessions;
}

-- A socket is set to one that holds its right, and stays logged in.
sessions-set_socket :
    (c : ℕ) (k : Socket) (sockets : ℕ → Socket) (es : List (Text × ℕ))
    → ((sockets c).is_logged_in ≡ true → k.is_logged_in ≡ true)
    → All (λ (e : Text × ℕ). (sockets e.1).is_logged_in ≡ true) es
    → All (λ (e : Text × ℕ). (update sockets c k e.1).is_logged_in ≡ true) es
sessions-set_socket c k sockets [] h a = tt
sessions-set_socket c k sockets ((id, d) ∷ es) h a = (
  elim (Bool-cases (d == c)) [
    | inl e ↦ rw e (h (subst (λ x. (sockets x).is_logged_in ≡ true) ((==_iff d c).0 e) a.0))
    | inr e ↦ rw e a.0
  ],
  sessions-set_socket c k sockets es h a.1,
)

pub set_socket-AuthInv :
    (c : ℕ) (k : Socket) (s : Auth)
    → Holds k s.db
    → ((s.sockets c).is_logged_in ≡ true → k.is_logged_in ≡ true)
    → AuthInv s
    → AuthInv (set_socket c k s)
set_socket-AuthInv c k s h l i = record {
  keyed = i.keyed;
  holds = λ d. elim (Bool-cases (d == c)) [ inl e ↦ rw e h | inr e ↦ rw e (i.holds d) ];
  sessions = sessions-set_socket c k s.sockets s.sessions l i.sessions;
}

sessions-append :
    (c : ℕ) (id : Text) (sockets : ℕ → Socket) (es : List (Text × ℕ))
    → (sockets c).is_logged_in ≡ true
    → All (λ (e : Text × ℕ). (sockets e.1).is_logged_in ≡ true) es
    → All (λ (e : Text × ℕ). (sockets e.1).is_logged_in ≡ true) (es ++ (id, c) ∷ [])
sessions-append c id sockets [] h a = (h, tt)
sessions-append c id sockets (e ∷ es) h a = (a.0, sessions-append c id sockets es h a.1)

pub set_session_id-AuthInv :
    (id : Text) (c : ℕ) (s : Auth)
    → (s.sockets c).is_logged_in ≡ true
    → AuthInv s
    → AuthInv (set_session_id id c s)
set_session_id-AuthInv id c s h i = elim (Bool-cases (any (λ e. text_eq e.0 id) s.sessions)) [
  | inl e ↦ rw e i
  | inr e ↦ rw e (record {
    keyed = i.keyed;
    holds = i.holds;
    sessions = sessions-append c id s.sockets s.sessions h i.sessions;
  })
]

pub some_cc : (s t : Auth) → some s ≡ some t → s ≡ t
some_cc s t e = cc

pub open_session-AuthInv :
    (c : ℕ) (name : Text) (e : Surroundings) (callback : Text → Text → Bool → Reply) (s t : Auth)
    → AuthInv s
    → open_session c name e callback s ≡ some t
    → AuthInv t
unfolding open_session
open_session-AuthInv c name e callback s t i h =
    elim (Option-cases (create_session e.ids e.now name e.ip_address s.db)) [
      | inl a ↦
          let q : open_session c name e callback s ≡ none = rw (a, open_session) refl in
          absurd (cc (sym q ∙ h))
      | inr ((db', (n, admin, old, new)), a) ↦
          let (grown, who) =
            create_session-Grows e.ids e.now name e.ip_address s.db db' n admin old new i.keyed a in
          let s1 = record s { db = db' } in
          let i1 = grow-AuthInv db' s grown i in
          elim (Bool-cases (is_empty n)) [
            | inl y ↦
                let q : open_session c name e callback s ≡ some s1 =
                  rw (a, open_session) (rw y refl) in
                subst AuthInv (some_cc s1 t (sym q ∙ h)) i1
            | inr y ↦
                let k = record (s.sockets c) {
                  username = n;
                  is_logged_in = true;
                  is_admin = admin;
                } in
                let s2 = set_session_id new c (set_socket c k s1) in
                let q : open_session c name e callback s
                    ≡ some (reply c (callback n new admin) s2) =
                  rw (a, open_session) (rw y refl) in
                subst AuthInv (some_cc (reply c (callback n new admin) s2) t (sym q ∙ h)) (
                  reply-AuthInv c (callback n new admin) s2 (
                    set_session_id-AuthInv new c (set_socket c k s1) (rw (==_refl c) refl) (
                      set_socket-AuthInv c k s1 (entitled db' n admin y who, λ x. refl) (λ x. refl)
                        i1)))
          ]
    ]
  where
    entitled :
        (db : Database) (n : Text) (admin : Bool)
        → is_empty n ≡ false
        → (n ≡ []) ⊎ Entitled n admin db
        → true ≡ true
        → Entitled n admin db
    entitled db n admin y (inl z) x = absurd (cc (sym y ∙ ap is_empty z))
    entitled db n admin y (inr z) x = z
