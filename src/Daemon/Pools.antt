-- ===== src/Daemon/Pools.antt =====
-- main.go with ssh/pool.go: the SSH pools of the daemon's life, which engines use by their identity
-- and runtimeState closes at the end.
pub mod Laws
use avella.Common.{ℕ, ◌≡◌, Bool, List, [], ◌∷◌, Option, none, some, nat_eq}
use avella.Common.Dict.{Dict, lookup, insert}
use avella.Common.Text.{Text}
use avella.Config.{Ssh}
use avella.Daemon.Runtime.{Runtime, new_runtime_state}
use avella.Daemon.Runtime.Reload.{Prepared, install}
use avella.Go.{Std}
use avella.Rules.Engine.{Engine}
use avella.Rules.Engine.Compile.{new_ssh}
use avella.SshPool.{Pool, Network, new_pool, sftp, close}

-- A pool that newSSH made, if it made one, is added under its identity.
abbrev pub add_pool : Option ℕ → Dict Text Ssh → Dict ℕ Pool → Dict ℕ Pool
add_pool none hosts pools = pools
add_pool (some id) hosts pools = (id, new_pool hosts) ∷ pools

-- `pool.Close()` for the pools of a list, each with what the network answers to it.
unfoldable pub close_pool : Network → ℕ → Dict ℕ Pool → Dict ℕ Pool
close_pool n id pools = elim (lookup id pools) [
  | none ↦ pools
  | some p ↦ insert id (close n p).1 pools
]

unfoldable pub close_pools : (ℕ → Network) → List ℕ → Dict ℕ Pool → Dict ℕ Pool
unfolding close_pool
close_pools answers [] pools = pools
close_pools answers (id ∷ ids) pools = close_pools answers ids (close_pool (answers id) id pools)

module _ (std : Std) where
  pub record Pools : Type 0 where
    pub runtime : Runtime std
    pub pools : Dict ℕ Pool

  -- The runtime state and the first pool, as main makes them.
  unfoldable pub first_pools : Engine std → Bool → Dict Text Ssh → ℕ → Pools
  first_pools engine dry_run hosts id = record {
    runtime = new_runtime_state std engine dry_run (new_ssh hosts id);
    pools = add_pool (new_ssh hosts id) hosts [];
  }

  pub data Step : Pools → Pools → Type 0 where
    -- A reload of a configuration with these hosts, whose pool is a new one.
    reloads :
        (hosts : Dict Text Ssh) (id : ℕ) (p : Prepared std) (s : Pools)
        → p.pool ≡ new_ssh hosts id
        → lookup id s.pools ≡ none
        → Step s
            (record { runtime = install std p s.runtime; pools = add_pool p.pool hosts s.pools })
    -- An upload asks a pool for a session with a host.
    connects :
        (n : Network) (host : Text) (id : ℕ) (p : Pool) (s : Pools)
        → lookup id s.pools ≡ some p
        → Step s (record s { pools = insert id (sftp n host p).1 s.pools })

  pub data Reach (engine : Engine std) (dry_run : Bool) (hosts : Dict Text Ssh) (id : ℕ)
      : Pools → Type 0 where
    here : Reach engine dry_run hosts id (first_pools engine dry_run hosts id)
    next :
        {s t : Pools} → Reach engine dry_run hosts id s → Step s t → Reach engine dry_run hosts id t

  -- `runtime.Close()`, which main defers, with the pools themselves.
  unfoldable pub shutdown : (ℕ → Network) → Pools → Pools
  unfolding close_pools
  shutdown answers s = record {
    runtime = record (s.runtime) { ssh_pools = [] };
    pools = close_pools answers s.runtime.ssh_pools s.pools;
  }
