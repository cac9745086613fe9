-- ===== src/SshPool/Laws.antt =====
-- Every connection that the pool opens is kept or closed.
use avella.Common.{
  contains-append, ℕ, ◌≡◌, refl, sym, ap, subst, ◌∙◌, ◌⊎◌, inl, inr, true, false, not, ◌&&◌,
  is_empty, [], ◌∷◌, ◌++◌, none, some, Result, ok, err, contains, nat_eq, arith, if◌then◌else◌,
  ◌==◌, Option-cases, Bool-cases,
}
use avella.Common.Dict.{Dict, lookup, insert, lookup-insert, lookup-erase}
use avella.Common.Text.{Text, text_eq}
use avella.Config.{Ssh}
use avella.SshPool.{
  Pool, Network, AuthMethod, PoolError, auth_method, dial_with, dial, keep, drop_stale, get_conn,
  sftp, close, values, agent_sock, address, dial_failed, unknown_host, with_session,
}

-- The connection is closed, or kept for an agent, or the one that is cached for some host.
abbrev pub Accounted : Pool → ℕ → Type 0
Accounted p c =
    (contains p.closed c ≡ true)
    ⊎ ((contains p.agent_conns c ≡ true) ⊎ ((name : Text) × (lookup name p.conns ≡ some c)))

abbrev pub IsAccounted : Pool → Type 0
IsAccounted p = (c : ℕ) → contains p.opened c ≡ true → Accounted p c

==_sound : (s t : Text) → (s == t) ≡ true → s ≡ t
==_sound s t h = ground arith

-- A connection to an agent is added.
abbrev with_agent : ℕ → Pool → Pool
with_agent d p = record p { agent_conns = p.agent_conns ++ d ∷ []; opened = d ∷ p.opened }

with_agent-IsAccounted : (d : ℕ) (p : Pool) → IsAccounted p → IsAccounted (with_agent d p)
with_agent-IsAccounted d p a c h = ground (arith, a c, contains-append p.agent_conns (d ∷ []) c)

drop_stale-IsAccounted :
    (name : Text) (d : ℕ) (p : Pool)
    → lookup name p.conns ≡ some d
    → IsAccounted p
    → IsAccounted (drop_stale name d p)
unfolding drop_stale
drop_stale-IsAccounted name d p cached a c h = elim (a c h) [
  | inl shut ↦ inl (ground arith)
  | inr (inl agent) ↦ inr (inl agent)
  | inr (inr (j, e)) ↦ elim (Bool-cases (name == j)) [
    | inl same ↦ inl (ground (arith, ap (λ k. lookup k p.conns) (==_sound name j same)))
    | inr other ↦ inr (inr (j, rw (lookup-erase, other) e))
  ]
]

-- A connection that was just opened goes under a name that has none.
cached-IsAccounted :
    (name : Text) (d : ℕ) (p : Pool)
    → lookup name p.conns ≡ none
    → IsAccounted p
    → IsAccounted (record p { opened = d ∷ p.opened; conns = insert name d p.conns })
cached-IsAccounted name d p free a c h = elim (Bool-cases (c == d)) [
  | inl new ↦ inr (inr (name, rw lookup-insert (ground arith)))
  | inr old ↦ elim (a c (ground arith)) [
    | inl shut ↦ inl shut
    | inr (inl agent) ↦ inr (inl agent)
    | inr (inr (j, e)) ↦
        inr (inr (j, lookup-insert name j d p.conns ∙ other j e (Bool-cases (name == j))))
  ]
]
  where
    other :
        (j : Text) {x : ℕ}
        → lookup j p.conns ≡ some x
        → ((name == j) ≡ true) ⊎ ((name == j) ≡ false)
        → (if name == j then some d else lookup j p.conns) ≡ some x
    other j e (inl same) =
        absurd (cc (sym (ap (λ k. lookup k p.conns) (==_sound name j same)) ∙ free, e))
    other j e (inr differs) = rw differs e

-- What an authentication does to the pool: nothing, or it opens one connection to an agent.
auth_method-cases :
    (n : Network) (cfg : Ssh) (p : Pool)
    → ((auth_method n cfg p).1 ≡ p) ⊎ ((d : ℕ) × ((auth_method n cfg p).1 ≡ with_agent d p))
unfolding auth_method
auth_method-cases n cfg p = elim (Option-cases (n.dial_agent (agent_sock n cfg))) [
  | inl refused ↦ inl (ground arith)
  | inr (d, answered) ↦ elim (Bool-cases (is_empty cfg.key && not (is_empty (agent_sock n cfg)))) [
    | inl asks ↦ inr (d, ground arith)
    | inr has_key ↦ inl (ground arith)
  ]
]

-- What a dial does: it leaves the pool that authentication left, with an error, or opens one more.
dial_with-cases :
    (n : Network) (cfg : Ssh) (r : Result PoolError AuthMethod) (p : Pool)
    → ((x : PoolError) × (dial_with n cfg (r, p) ≡ (err x, p)))
      ⊎ ((d : ℕ) × (dial_with n cfg (r, p) ≡ (ok d, record p { opened = d ∷ p.opened })))
unfolding dial_with
dial_with-cases n cfg (err x) p = inl (x, refl)
dial_with-cases n cfg (ok auth) p = elim (Option-cases (n.dial_ssh cfg.user (address n cfg) auth)) [
  | inl refused ↦ inl (dial_failed cfg.user (address n cfg), rw (refused, dial_with))
  | inr (d, answered) ↦ inr (d, rw (answered, dial_with))
]

keep_dial-IsAccounted :
    (n : Network) (name : Text) (cfg : Ssh) (r : Result PoolError AuthMethod) (p : Pool)
    → lookup name p.conns ≡ none
    → IsAccounted p
    → IsAccounted (keep name (dial_with n cfg (r, p))).1
unfolding keep
keep_dial-IsAccounted n name cfg r p free a = elim (dial_with-cases n cfg r p) [
  | inl (x, e) ↦ rw e a
  | inr (d, e) ↦ rw e (cached-IsAccounted name d p free a)
]

-- The pool without a connection for the name, and accounted for.
abbrev IsFree : Text → Pool → Type 0
IsFree name p = (lookup name p.conns ≡ none) × IsAccounted p

auth_method-IsFree :
    (n : Network) (name : Text) (cfg : Ssh) (p : Pool)
    → IsFree name p
    → IsFree name (auth_method n cfg p).1
auth_method-IsFree n name cfg p free = elim (auth_method-cases n cfg p) [
  | inl same ↦ rw same free
  | inr (d, agent) ↦ rw agent ((free.0, with_agent-IsAccounted d p free.1))
]

redial-IsAccounted :
    (n : Network) (name : Text) (p : Pool)
    → IsFree name p
    → IsAccounted (keep name (dial n name p)).1
unfolding dial keep
redial-IsAccounted n name p free = elim (Option-cases (lookup name p.hosts)) [
  | inl unknown ↦
      let e : dial n name p ≡ (err (unknown_host name), p) = rw (unknown, dial) in rw e free.1
  | inr (cfg, known) ↦
      let e : dial n name p ≡ dial_with n cfg (auth_method n cfg p) = rw (known, dial) in
      let q = auth_method-IsFree n name cfg p free in
      rw e
        (keep_dial-IsAccounted n name cfg (auth_method n cfg p).0 (auth_method n cfg p).1 q.0 q.1)
]

drop_stale-IsFree :
    (name : Text) (d : ℕ) (p : Pool)
    → lookup name p.conns ≡ some d
    → IsAccounted p
    → IsFree name (drop_stale name d p)
unfolding drop_stale
drop_stale-IsFree name d p cached a =
    (rw lookup-erase (ground arith), drop_stale-IsAccounted name d p cached a)

get_conn-IsAccounted :
    (n : Network) (name : Text) (p : Pool) → IsAccounted p → IsAccounted (get_conn n name p).1
unfolding get_conn
get_conn-IsAccounted n name p a = elim (Option-cases (lookup name p.conns)) [
  | inl free ↦ rw (free, get_conn) (redial-IsAccounted n name p (free, a))
  | inr (d, cached) ↦ elim (Bool-cases (n.alive d)) [
    | inl alive ↦ rw (cached, get_conn) (rw alive a)
    | inr stale ↦
        rw (cached, get_conn)
          (rw stale
            (redial-IsAccounted n name (drop_stale name d p) (drop_stale-IsFree name d p cached a)))
  ]
]

with_session-pool :
    (n : Network) (name : Text) (o : Result PoolError ℕ × Pool) → (with_session n name o).1 ≡ o.1
unfolding with_session
with_session-pool n name (err x, p) = refl
with_session-pool n name (ok c, p) = refl

pub sftp-IsAccounted :
    (n : Network) (name : Text) (p : Pool) → IsAccounted p → IsAccounted (sftp n name p).1
unfolding sftp
sftp-IsAccounted n name p a =
    subst IsAccounted (sym (with_session-pool n name (get_conn n name p)))
      (get_conn-IsAccounted n name p a)

contains-values :
    (name : Text) (c : ℕ) (m : Dict Text ℕ) → lookup name m ≡ some c → contains (values m) c ≡ true
unfolding lookup
contains-values name c [] e = absurd (cc e)
contains-values name c ((j, d) ∷ m) e = ground (arith, contains-values name c m)

-- Closing leaves no connection open.
pub close_closes :
    (n : Network) (p : Pool) (c : ℕ)
    → IsAccounted p
    → contains (close n p).1.opened c ≡ true
    → contains (close n p).1.closed c ≡ true
unfolding close
close_closes n p c a h =
    contains-append (values p.conns ++ p.agent_conns) p.closed c
    ∙ rw (contains-append (values p.conns) p.agent_conns c) (elim (a c h) [
      | inl shut ↦ ground arith
      | inr (inl agent) ↦ ground arith
      | inr (inr (name, e)) ↦ ground (arith, contains-values name c p.conns e)
    ])

pub close-IsAccounted : (n : Network) (p : Pool) → IsAccounted p → IsAccounted (close n p).1
close-IsAccounted n p a c h = inl (close_closes n p c a h)
