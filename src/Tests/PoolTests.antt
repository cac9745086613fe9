-- ===== src/Tests/PoolTests.antt =====
-- Tests of the SSH pool, and its theorems for one host.
use avella.Common.{
  ◌≡◌, ◌==◌, if◌then◌else◌, refl, true, false, List, [], ◌∷◌, none, some, contains, nat_eq,
  ℕ_discrete, ok,
}
use avella.Common.Dict.{Dict, lookup}
use avella.Common.Text.{Text, str, text_eq}
use avella.Config.{Ssh}
use avella.SshPool.{
  new_pool, Network, sftp, address, agent_sock, get_conn, dial, auth_method, with_port_22, close,
}
use avella.SshPool.Leaks.{Call, sessions, closes, after, close_after, IsUnreachable}

abbrev box : Ssh
box = record { host = str "box"; user = str "me"; key = []; agent_sock = str "/agent" }

abbrev pub hosts : Dict Text Ssh
hosts = (str "nas", box) ∷ []

-- The agent answers on connection 1, and the host cannot be dialled.
abbrev down : Network
down = record {
  reads_key = λ k. true;
  parses_key = λ k. true;
  auth_sock = [];
  dial_agent = λ s. some 1;
  has_port = λ a. false;
  dial_ssh = λ user addr auth. none;
  alive = λ c. true;
  new_sftp = λ c. true;
  closes = λ c. true;
}

-- The host answers on connection 2, at the default port.
abbrev pub up : Network
up = record down { dial_ssh = λ user addr auth. if addr == str "box:22" then some 2 else none }

dials_port_22 : (sftp up (str "nas") (new_pool hosts)).0 ≡ ok 2
unfolding sftp get_conn dial auth_method address with_port_22 lookup text_eq ℕ_discrete
dials_port_22 = refl

abbrev calls : List Call
calls = sessions up (str "nas") ∷ sessions down (str "nas") ∷ []

opened_two : contains (after hosts (closes up ∷ calls)).opened 2 ≡ true
unfolding close sftp lookup text_eq ℕ_discrete
opened_two = refl

close_after_example : contains (after hosts (closes up ∷ calls)).closed 2 ≡ true
close_after_example = close_after hosts calls up 2 opened_two

box-IsUnreachable : IsUnreachable down (str "nas") box 1
unfolding agent_sock
box-IsUnreachable = record { no_key = refl; has_sock = refl; agent_answers = refl; refused = refl }

known : lookup (str "nas") hosts ≡ some box
unfolding lookup text_eq ℕ_discrete
known = refl

free : lookup (str "nas") (new_pool hosts).conns ≡ none
unfolding lookup
free = refl
