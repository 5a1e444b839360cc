-- ===== src/Posts/Rate.antt =====
-- CollabVmServer.hpp: how often a client may write (CHAT_MESSAGE).
use collab_vm_server.Base.{
  ℕ, suc, ◌+◌, ◌≤◌, ◌<◌, ◌≡◌, refl, sym, ap, ◌∙◌, true, false, none, some, List, [], ◌∷◌, ◌++◌,
  arith, All, get_elem?, ◌⊎◌, inl, inr, Bool-cases, Option-cases, update, is_empty,
}
use collab_vm_server.Chat.{ChatRoom, add_user_message}
use collab_vm_server.Posts.{
  Poster, ChatMessageDestination, to_new_direct, to_direct, to_vm, to_other, Posts, Post, get_room,
  set_room, get_user_type, send_message, deliver, is_dropped, chat_message, chat_messages,
}

pub set_room-posters :
    (id : ℕ) (room : ChatRoom) (s : Posts) → (set_room id room s).posters ≡ s.posters
set_room-posters id room s = ground arith

pub some_posts : (s t : Posts) → some s ≡ some t → s ≡ t
some_posts s t e = cc

posters_of : (s t : Posts) (f : ℕ → Poster) → some s ≡ some t → s.posters ≡ f → t.posters ≡ f
posters_of s t f e q = ap (λ (x : Posts). x.posters) (sym (some_posts s t e)) ∙ q

send_message-posters :
    (p : Poster) (post : Post) (id : ℕ) (room : ChatRoom) (s t : Posts)
    → send_message p post id room s ≡ some t
    → t.posters ≡ s.posters
unfolding send_message
send_message-posters p post id room s t e =
    elim (Option-cases
      (add_user_message post.timestamp p.username (get_user_type p) post.message room)) [
        | inl a ↦
            let q : send_message p post id room s ≡ none = rw (a, send_message) refl in
            absurd (cc (sym q ∙ e))
        | inr ((room', m), a) ↦
            let u = set_room id room' s in
            posters_of (record u { broadcasts = s.broadcasts ++ (id, m) ∷ [] }) t s.posters
              (sym (rw (a, send_message) refl) ∙ e) (set_room-posters id room' s)
      ]

module _ (n rate : ℕ) (to_upper : ℕ → ℕ) where
  deliver-posters :
      (c : ℕ) (p : Poster) (post : Post) (d : ChatMessageDestination) (s t : Posts)
      → deliver n rate to_upper c p post d s ≡ some t
      → t.posters ≡ s.posters
  unfolding deliver
  deliver-posters c p post (to_new_direct name) s t e = posters_of _ t s.posters e refl
  deliver-posters c p post (to_direct id) s t e = posters_of _ t s.posters e refl
  deliver-posters c p post (to_vm id) s t e = elim (Option-cases (get_room id s)) [
    | inl a ↦ posters_of s t s.posters (sym (rw (a, deliver) refl) ∙ e) refl
    | inr (room, a) ↦ send_message-posters p post id room s t (sym (rw (a, deliver) refl) ∙ e)
  ]
  deliver-posters c p post to_other s t e = posters_of s t s.posters e refl

  chat_message-dropped :
      (c : ℕ) (post : Post) (s : Posts)
      → is_dropped n rate to_upper (s.posters c) post ≡ true
      → chat_message n rate to_upper c post s ≡ some s
  unfolding chat_message
  chat_message-dropped c post s e = rw e refl

  -- A message that is not dropped is the last one of its client.
  chat_message-last :
      (c : ℕ) (post : Post) (s t : Posts)
      → is_dropped n rate to_upper (s.posters c) post ≡ false
      → chat_message n rate to_upper c post s ≡ some t
      → (t.posters c).last_chat_message ≡ post.now
  unfolding chat_message
  chat_message-last c post s t a e =
      let p = s.posters c in
      let s1 = record s {
        posters = update s.posters c (record p { last_chat_message = post.now });
      } in
      let set : (s1.posters c).last_chat_message ≡ post.now = ground arith in
      let last : t.posters ≡ s1.posters → (t.posters c).last_chat_message ≡ post.now =
        λ q. ap (λ (f : ℕ → Poster). (f c).last_chat_message) q ∙ set in
      elim (Bool-cases (is_empty p.username)) [
        | inl none_yet ↦
            last
              (posters_of s1 t s1.posters (sym (rw (a, chat_message) (rw none_yet refl)) ∙ e) refl)
        | inr named ↦ last (
            deliver-posters c p post post.destination s1 t
              (sym (rw (a, chat_message) (rw named refl)) ∙ e))
      ]

  too_soon :
      (p : Poster) (post : Post)
      → post.now < p.last_chat_message + rate
      → is_dropped n rate to_upper p post ≡ true
  unfolding is_dropped
  too_soon p post h = ground arith

  -- The messages come within the time that has to pass between two.
  abbrev pub Within : ℕ → Post → Type 0
  Within begin post = (begin ≤ post.now) × (post.now < begin + rate)

  later_dropped :
      (c begin : ℕ) (posts : List Post) (s : Posts)
      → begin ≤ (s.posters c).last_chat_message
      → All (Within begin) posts
      → chat_messages n rate to_upper c posts s ≡ some s
  unfolding chat_messages
  later_dropped c begin [] s h w = refl
  later_dropped c begin (post ∷ posts) s h w =
      rw (chat_message-dropped c post s (too_soon (s.posters c) post (omega (arith, h, w.0.1))))
        (later_dropped c begin posts s h w.1)

  -- Of the messages that a client sends within `chat_rate_limit` at most one has an effect, whatever
  -- they are and wherever they go: what all of them do is what that one does.
  pub chat_messages-one :
      (c begin : ℕ) (posts : List Post) (s : Posts)
      → All (Within begin) posts
      → (chat_messages n rate to_upper c posts s ≡ some s)
        ⊎ ((post : Post) × (i : ℕ) × (get_elem? posts i ≡ some post)
            × (chat_messages n rate to_upper c posts s ≡ chat_message n rate to_upper c post s))
  unfolding chat_messages
  chat_messages-one c begin [] s w = inl refl
  chat_messages-one c begin (post ∷ posts) s w =
      elim (Bool-cases (is_dropped n rate to_upper (s.posters c) post)) [
        | inl out ↦
            let q : chat_messages n rate to_upper c (post ∷ posts) s
                ≡ chat_messages n rate to_upper c posts s =
              rw (chat_message-dropped c post s out) refl in
            elim (chat_messages-one c begin posts s w.1) [
              | inl same ↦ inl (q ∙ same)
              | inr (kept, i, at, e) ↦ inr (kept, suc i, at, q ∙ e)
            ]
        | inr in_time ↦ elim (Option-cases (chat_message n rate to_upper c post s)) [
          | inl a ↦ inr (post, 0, refl, rw a refl)
          | inr (t, a) ↦
              let last = chat_message-last c post s t in_time a in
              inr (
                post,
                0,
                refl,
                rw (a, later_dropped c begin posts t (omega (arith, last, w.0.0)) w.1) refl,
              )
        ]
      ]
