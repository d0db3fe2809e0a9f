-- ===== src/Session/Info.antt =====
-- `SessionInfo` of src/uxon/domain/session.py, less the fields that are only shown.
use uxon.Prelude.{String, Bool}
use uxon.Session.Identity.{SessionIdentity}

pub record SessionInfo : Type 0 where
  pub user : String
  pub name : String
  -- "1" where a client is attached
  pub attached : String
  pub active_path : String
  pub tmux_session_id : String
  pub tmux_session_created : String
  pub launch_nonce : String
  pub socket_path : String
  pub launch_record_verified : Bool
  pub launch_user : String
  pub execution_backend : String
  pub execution_fingerprint : String
  pub agent : String
  pub profile : String
  pub runtime : String
  pub runtime_kind : String
  pub runtime_fingerprint : String
  pub runtime_id : String
  pub runtime_epoch : String
  pub runtime_marker : String
  pub runtime_resource : String
  pub runtime_dir : String
  pub project_slug : String
  pub runtime_cgroup : String
  pub exited : Bool

-- the property `identity`
unfoldable pub identity : SessionInfo → SessionIdentity
identity self = record {
  user = self.user;
  name = self.name;
  session_id = self.tmux_session_id;
  created = self.tmux_session_created;
  launch_nonce = self.launch_nonce;
  socket_path = self.socket_path;
  execution_backend = self.execution_backend;
  execution_fingerprint = self.execution_fingerprint;
}
