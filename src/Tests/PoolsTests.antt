-- ===== src/Tests/PoolsTests.antt =====
-- Tests of the pools of the daemon's life, and their theorem for one upload.
use avella.Common.{◌≡◌, refl, true, false, [], ◌∷◌, some, nat_eq, ℕ_discrete, contains}
use avella.Common.Dict.{lookup, insert}
use avella.Common.Text.{str, text_eq}
use avella.Daemon.Pools.{
  Pools, first_pools, Reach, here, next, connects, shutdown, close_pool, close_pools,
}
use avella.Daemon.Pools.Laws.{IsClosed, shutdown-IsClosed}
use avella.Daemon.Runtime.{new_runtime_state}
use avella.Rules.Engine.Compile.{new_ssh}
use avella.SshPool.{Pool, new_pool, sftp, get_conn, dial, auth_method, with_port_22, close}
use avella.Tests.{go, engine}
use avella.Tests.PoolTests.{hosts, up}

-- Pool 7 has a connection to the host.
abbrev used : Pool
used = (sftp up (str "nas") (new_pool hosts)).1

abbrev uploading : Pools go
uploading = record {
  runtime = new_runtime_state go engine false (some 7);
  pools = insert 7 used ((7, new_pool hosts) ∷ []);
}

uploading-Reach : Reach go engine false hosts 7 uploading
unfolding first_pools new_ssh new_runtime_state lookup insert ℕ_discrete
uploading-Reach =
    next here
      (connects up (str "nas") 7 (new_pool hosts) (first_pools go engine false hosts 7) refl)

stopped_pool : lookup 7 (shutdown go (λ i. up) uploading).pools ≡ some (close up used).1
unfolding new_runtime_state shutdown close_pools close_pool lookup insert ℕ_discrete
stopped_pool = refl

opened_two : contains used.opened 2 ≡ true
unfolding sftp get_conn dial auth_method with_port_22 lookup text_eq ℕ_discrete
opened_two = refl

shutdown-IsClosed_example : IsClosed (close up used).1
shutdown-IsClosed_example =
    shutdown-IsClosed go engine false hosts 7 (λ i. up) 7 (close up used).1 uploading-Reach
      stopped_pool
