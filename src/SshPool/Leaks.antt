-- ===== src/SshPool/Leaks.antt =====
-- Which connections of the pool are still open, after any calls.
use avella.Common.{
  ℕ, zero, suc, ◌+◌, ◌≡◌, refl, ap, ◌∙◌, true, List, [], ◌∷◌, ◌++◌, none, some, contains, nat_eq,
  is_empty, false, length, length-append, arith,
}
use avella.Common.Dict.{Dict, lookup}
use avella.Common.Text.{Text, text_eq}
use avella.Config.{Ssh}
use avella.SshPool.{
  Pool, new_pool, Network, agent_sock, auth_method, dial_with, dial, keep, address, get_conn, sftp,
  close, agent_signers,
}
use avella.SshPool.Laws.{IsAccounted, sftp-IsAccounted, close_closes, close-IsAccounted}

-- The calls of a pool's life, each with what the network answered.
pub data Call : Type 0 where
  sessions : Network → Text → Call
  closes : Network → Call

abbrev pub apply : Call → Pool → Pool
apply (sessions n name) p = (sftp n name p).1
apply (closes n) p = (close n p).1

-- The pool after a history, the latest call first.
abbrev pub after : Dict Text Ssh → List Call → Pool
after hosts [] = new_pool hosts
after hosts (c ∷ earlier) = apply c (after hosts earlier)

after-IsAccounted : (hosts : Dict Text Ssh) (calls : List Call) → IsAccounted (after hosts calls)
after-IsAccounted hosts [] = λ c h. absurd (cc h)
after-IsAccounted hosts (sessions n name ∷ earlier) =
    sftp-IsAccounted n name (after hosts earlier) (after-IsAccounted hosts earlier)
after-IsAccounted hosts (closes n ∷ earlier) =
    close-IsAccounted n (after hosts earlier) (after-IsAccounted hosts earlier)

-- Whatever sessions were asked for, and whatever failed: once the pool is closed, every
-- connection that it ever opened, to a host or to an agent, was closed.
pub close_after :
    (hosts : Dict Text Ssh) (calls : List Call) (n : Network) (c : ℕ)
    → let p = after hosts (closes n ∷ calls) in
      contains p.opened c ≡ true → contains p.closed c ≡ true
close_after hosts calls n c = close_closes n (after hosts calls) c (after-IsAccounted hosts calls)

-- The same session, asked for a number of times.
abbrev pub retried : Network → Text → ℕ → Pool → Pool
retried n name zero p = p
retried n name (suc k) p = (sftp n name (retried n name k p)).1

-- A host that is reached by an agent, which answers, and cannot be dialled.
pub record IsUnreachable (n : Network) (name : Text) (cfg : Ssh) (agent : ℕ) : Type 0 where
  pub no_key : is_empty cfg.key ≡ true
  pub has_sock : is_empty (agent_sock n cfg) ≡ false
  pub agent_answers : n.dial_agent (agent_sock n cfg) ≡ some agent
  pub refused : n.dial_ssh cfg.user (address n cfg) (agent_signers agent) ≡ none

module _ (n : Network) (name : Text) (cfg : Ssh) (agent : ℕ)
    (u : IsUnreachable n name cfg agent) where
  failed_session :
      (p : Pool)
      → lookup name p.hosts ≡ some cfg
      → lookup name p.conns ≡ none
      → (sftp n name p).1
        ≡ record p { agent_conns = p.agent_conns ++ agent ∷ []; opened = agent ∷ p.opened }
  unfolding sftp get_conn dial auth_method dial_with keep
  failed_session p known free = ground (arith, u.no_key, u.has_sock, u.agent_answers, u.refused)

  retried-agent_conns :
      (k : ℕ) (p : Pool)
      → lookup name p.hosts ≡ some cfg
      → lookup name p.conns ≡ none
      → ((retried n name k p).hosts ≡ p.hosts)
        × ((retried n name k p).conns ≡ p.conns)
        × (length (retried n name k p).agent_conns ≡ length p.agent_conns + k)
        × ((retried n name k p).closed ≡ p.closed)
  retried-agent_conns zero p known free = (refl, refl, omega arith, refl)
  retried-agent_conns (suc k) p known free =
      let q = retried n name k p in
      let (hosts, conns, count, shut) = retried-agent_conns k p known free in
      let e = failed_session q (ap (lookup name) hosts ∙ known) (ap (lookup name) conns ∙ free) in
      (
        ap (λ (p : Pool). p.hosts) e ∙ hosts,
        ap (λ (p : Pool). p.conns) e ∙ conns,
        ap (λ (p : Pool). length p.agent_conns) e
            ∙ omega (arith, length-append q.agent_conns (agent ∷ []), count),
        ap (λ (p : Pool). p.closed) e ∙ shut,
      )

-- Each session that fails because the host cannot be dialled leaves one more open connection to
-- the agent: after k of them there are k more, and none was closed.
retried_leaks :
    (n : Network) (name : Text) (cfg : Ssh) (agent : ℕ) (u : IsUnreachable n name cfg agent) (k : ℕ)
    (p : Pool)
    → lookup name p.hosts ≡ some cfg
    → lookup name p.conns ≡ none
    → (length (retried n name k p).agent_conns ≡ length p.agent_conns + k)
      × ((retried n name k p).closed ≡ p.closed)
retried_leaks n name cfg agent u k p known free =
    let (_, _, count, shut) = retried-agent_conns n name cfg agent u k p known free in (count, shut)
