-- ===== src/Vm/Settings.antt =====
-- The settings of a virtual machine (`VmSetting`) that AdminVirtualMachine.hpp acts on, and
-- `ValidateSettings`. Times are in seconds, as the settings hold them.
use collab_vm_server.Base.{ℕ, ◌*◌, Bool, ◌&&◌, ◌||◌, not, ltb}
use collab_vm_server.Message.{Text}
use collab_vm_server.Vote.{VoteSettings}

pub data Protocol : Type 0 where
  rdp vnc other_protocol : Protocol

pub record VmSettings : Type 0 where
  pub turns_enabled : Bool
  pub turn_time : ℕ
  pub votes_enabled : Bool
  pub vote_time : ℕ
  pub vote_cooldown_time : ℕ
  pub disallow_guests : Bool
  pub description : Text
  pub start_command : Text
  pub stop_command : Text
  pub restart_command : Text
  pub protocol : Protocol

abbrev pub ns_per_second : ℕ
ns_per_second = 1000000000

-- `GetVotesEnabled`, `GetVoteTime` and `GetVoteCooldownTime`, with `Common::vote_limit`.
abbrev pub vote_settings : ℕ → VmSettings → VoteSettings
vote_settings vote_limit settings = record {
  votes_enabled = settings.votes_enabled;
  vote_time = settings.vote_time * ns_per_second;
  cooldown_time = settings.vote_cooldown_time * ns_per_second;
  vote_limit = vote_limit;
}

unfoldable pub validate_settings : VmSettings → Bool
validate_settings settings =
    (not settings.turns_enabled || ltb 0 settings.turn_time)
    && (not settings.votes_enabled || ltb 0 settings.vote_time)
