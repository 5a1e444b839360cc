-- ===== src/Message.antt =====
-- The messages that the server builds (`CollabVmServerMessage`), as far as the modelled parts build
-- them: one constructor for each `init…` or `set…` call on the message, with the fields that are set.
use collab_vm_server.Base.{ℕ, Bool, true, false, ◌&&◌, ◌==◌, List, [], ◌∷◌, ℤ}

-- A text or a byte string.
abbrev pub Text : Type 0
Text = List ℕ

abbrev pub text_eq : Text → Text → Bool
text_eq [] [] = true
text_eq (a ∷ s) (b ∷ t) = a == b && text_eq s t
text_eq _ _ = false

pub data UserType : Type 0 where
  guest regular admin : UserType

pub data TurnState : Type 0 where
  enabled disabled paused : TurnState

pub data VoteStatus : Type 0 where
  vote_disabled vote_cooling_down vote_idle : VoteStatus
  in_progress : ℕ → ℕ → ℕ → VoteStatus

pub record ListedUser : Type 0 where
  pub username : Text
  pub user_type : UserType

pub record ListedAdmin : Type 0 where
  pub user : ListedUser
  pub first : ℕ
  pub second : ℕ

pub record ChatMessage : Type 0 where
  pub sender : Text
  pub message : Text
  pub user_type : UserType
  pub timestamp : ℕ

pub data Message : Type 0 where
  user_list : ℕ → List ListedUser → Message
  admin_user_list : ℕ → List ListedAdmin → Message
  user_list_add : ℕ → ListedUser → Message
  admin_user_list_add : ℕ → ListedAdmin → Message
  user_list_remove : ℕ → Text → Message
  change_username : Text → Text → Message
  vm_description : Text → Message
  vote_status : VoteStatus → Message
  vote_result : Bool → Message
  vm_turn_info : TurnState → ℤ → List Text → Message
  guac_instr : ℕ → Message
  chat_message : ℕ → ChatMessage → Message
