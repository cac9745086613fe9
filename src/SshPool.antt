-- ===== src/SshPool.antt =====
-- ssh/pool.go: the pool of SSH connections.
pub mod Leaks
pub mod Laws
use avella.Common.{
  ℕ, Bool, true, false, not, List, [], ◌∷◌, ◌++◌, map, Option, none, some, Result, ok, err,
  is_empty, contains, nat_eq, if◌then◌else◌,
}
use avella.Common.Dict.{Dict, lookup, insert, erase}
use avella.Common.Text.{Text, str, text_eq}
use avella.Config.{Ssh}

-- Connections are numbered. `opened` and `closed` record the connections, to hosts and to agents,
-- that the pool made and closed.
pub record Pool : Type 0 where
  pub hosts : Dict Text Ssh
  pub conns : Dict Text ℕ
  pub agent_conns : List ℕ
  pub opened : List ℕ
  pub closed : List ℕ

abbrev pub new_pool : Dict Text Ssh → Pool
new_pool hosts = record { hosts = hosts; conns = []; agent_conns = []; opened = []; closed = [] }

pub data AuthMethod : Type 0 where
  public_key : Text → AuthMethod
  agent_signers : ℕ → AuthMethod

-- What the system and the network answer in the course of one call.
pub record Network : Type 0 where
  -- `os.ReadFile` of a key, and `ssh.ParsePrivateKey` of what it holds
  pub reads_key : Text → Bool
  pub parses_key : Text → Bool
  -- the variable SSH_AUTH_SOCK, and a connection to an agent's socket
  pub auth_sock : Text
  pub dial_agent : Text → Option ℕ
  -- `net.SplitHostPort` returns nil
  pub has_port : Text → Bool
  -- `ssh.Dial` as a user, at an address
  pub dial_ssh : Text → Text → AuthMethod → Option ℕ
  -- the keepalive request returns nil
  pub alive : ℕ → Bool
  -- `sftp.NewClient` on a connection
  pub new_sftp : ℕ → Bool
  -- `Close` of a connection returns nil
  pub closes : ℕ → Bool

pub data PoolError : Type 0 where
  unknown_host : Text → PoolError
  read_key_failed parse_key_failed : Text → PoolError
  no_key_or_sock : PoolError
  agent_failed : Text → PoolError
  dial_failed : Text → Text → PoolError
  session_failed : Text → PoolError

-- `net.JoinHostPort(addr, "22")`
unfoldable pub with_port_22 : Text → Text
with_port_22 addr = if contains addr b':' then b'[' ∷ (addr ++ str "]:22") else addr ++ str ":22"

unfoldable pub address : Network → Ssh → Text
unfolding with_port_22
address n cfg = if n.has_port cfg.host then cfg.host else with_port_22 cfg.host

-- The socket of the host's configuration, or else that of the environment.
unfoldable pub agent_sock : Network → Ssh → Text
agent_sock n cfg = if is_empty cfg.agent_sock then n.auth_sock else cfg.agent_sock

unfoldable pub agent_auth : Network → Text → Pool → Result PoolError AuthMethod × Pool
agent_auth n sock p = if is_empty sock then (err no_key_or_sock, p) else elim (n.dial_agent sock) [
  | none ↦ (err (agent_failed sock), p)
  | some c ↦ (
    ok (agent_signers c),
    record p { agent_conns = p.agent_conns ++ c ∷ []; opened = c ∷ p.opened },
  )
]

-- `authMethod`
unfoldable pub auth_method : Network → Ssh → Pool → Result PoolError AuthMethod × Pool
unfolding agent_auth agent_sock
auth_method n cfg p =
    if is_empty cfg.key
    then agent_auth n (agent_sock n cfg) p
    else if not (n.reads_key cfg.key)
    then (err (read_key_failed cfg.key), p)
    else if not (n.parses_key cfg.key)
    then (err (parse_key_failed cfg.key), p)
    else (ok (public_key cfg.key), p)

unfoldable pub dial_with :
    Network → Ssh → Result PoolError AuthMethod × Pool → Result PoolError ℕ × Pool
unfolding address
dial_with n cfg (err e, p) = (err e, p)
dial_with n cfg (ok auth, p) = elim (n.dial_ssh cfg.user (address n cfg) auth) [
  | none ↦ (err (dial_failed cfg.user (address n cfg)), p)
  | some c ↦ (ok c, record p { opened = c ∷ p.opened })
]

unfoldable pub dial : Network → Text → Pool → Result PoolError ℕ × Pool
unfolding dial_with auth_method
dial n name p = elim (lookup name p.hosts) [
  | none ↦ (err (unknown_host name), p)
  | some cfg ↦ dial_with n cfg (auth_method n cfg p)
]

unfoldable pub keep : Text → Result PoolError ℕ × Pool → Result PoolError ℕ × Pool
keep name (err e, p) = (err e, p)
keep name (ok c, p) = (ok c, record p { conns = insert name c p.conns })

-- `_ = client.Close(); delete(p.conns, name)`
unfoldable pub drop_stale : Text → ℕ → Pool → Pool
drop_stale name c p = record p { conns = erase name p.conns; closed = c ∷ p.closed }

-- `getConn`
unfoldable pub get_conn : Network → Text → Pool → Result PoolError ℕ × Pool
unfolding keep dial drop_stale
get_conn n name p = elim (lookup name p.conns) [
  | none ↦ keep name (dial n name p)
  | some c ↦ if n.alive c then (ok c, p) else keep name (dial n name (drop_stale name c p))
]

unfoldable pub with_session : Network → Text → Result PoolError ℕ × Pool → Result PoolError ℕ × Pool
with_session n name (err e, p) = (err e, p)
with_session n name (ok c, p) = (if n.new_sftp c then ok c else err (session_failed name), p)

-- `SFTP`
unfoldable pub sftp : Network → Text → Pool → Result PoolError ℕ × Pool
unfolding with_session get_conn
sftp n name p = with_session n name (get_conn n name p)

-- The connection whose close is the first to fail.
unfoldable pub first_unclosed : (ℕ → Bool) → List ℕ → Option ℕ
first_unclosed closes [] = none
first_unclosed closes (c ∷ cs) =
    let rest = first_unclosed closes cs in if closes c then rest else some c

abbrev pub values : Dict Text ℕ → List ℕ
values [] = []
values ((k, c) ∷ m) = c ∷ values m

-- `Close`: the connections to the hosts, in the order of the map, then those to agents.
unfoldable pub close : Network → Pool → Option ℕ × Pool
unfolding first_unclosed
close n p =
    let all : List ℕ = values p.conns ++ p.agent_conns in
    (
      first_unclosed n.closes all,
      record p { conns = []; agent_conns = []; closed = all ++ p.closed },
    )
