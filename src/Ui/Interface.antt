-- ===== src/Ui/Interface.antt =====
-- ui/ui.go: the interface by which the daemon talks to its tray, NoopUI, and SocketUI behind it.
use avella.Common.{ℕ, Bool, List}
use avella.Common.Text.{Text}
use avella.Ui.{
  RuleInfo, RecentFile, SocketUi, set_status, set_rules, set_dry_run_toggle, set_config_path,
  set_version, inc_processed, add_recent_file,
}

-- The methods of UI that change what is shown. Run is in Ui/Server and Daemon/Lifetime.
pub record Interface (U : Type 0) : Type 0 where
  pub set_status : Text → U → U
  pub set_rules : List RuleInfo → U → U
  pub set_dry_run_toggle : Bool → U → U
  pub set_config_path : Text → U → U
  pub set_version : Text → U → U
  pub inc_processed : U → U
  pub add_recent_file : RecentFile → U → U

-- `NoopUI`
unfoldable pub noop : Interface (Unit {0})
noop = record {
  set_status = λ status u. u;
  set_rules = λ rules u. u;
  set_dry_run_toggle = λ initial u. u;
  set_config_path = λ path u. u;
  set_version = λ version u. u;
  inc_processed = λ u. u;
  add_recent_file = λ file u. u;
}

-- SocketUI in a call whose broadcast, if it makes one, these connections take.
unfoldable pub socket : (ℕ → Bool) → Interface SocketUi
socket writes = record {
  set_status = set_status writes;
  set_rules = set_rules;
  set_dry_run_toggle = set_dry_run_toggle;
  set_config_path = set_config_path;
  set_version = set_version;
  inc_processed = inc_processed writes;
  add_recent_file = add_recent_file writes;
}
