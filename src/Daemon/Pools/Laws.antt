-- ===== src/Daemon/Pools/Laws.antt =====
-- At the end every connection of every pool is closed.
use mathlib.Core.Option.{some-injective}
use avella.Common.{
  ℕ, ◌≡◌, refl, sym, subst, ◌∙◌, Bool, true, false, Bool-cases, List, [], ◌∷◌, ◌++◌, Option, none,
  some, Option-cases, inl, inr, contains, contains-append, nat_eq, ◌==◌, arith, if◌then◌else◌,
}
use avella.Common.Dict.{Dict, lookup, insert, lookup-insert}
use avella.Common.Text.{Text}
use avella.Config.{Ssh}
use avella.Daemon.Pools.{
  add_pool, close_pool, close_pools, Pools, first_pools, Step, reloads, connects, Reach, here, next,
  shutdown,
}
use avella.Daemon.Runtime.{new_runtime_state, swap_engine, pools_of}
use avella.Daemon.Runtime.Reload.{install}
use avella.Go.{Std}
use avella.Rules.Engine.{Engine}
use avella.Rules.Engine.Compile.{new_ssh}
use avella.SshPool.{Pool, Network, new_pool, sftp, close}
use avella.SshPool.Laws.{IsAccounted, sftp-IsAccounted, close_closes, close-IsAccounted}

-- Every pool satisfies a predicate.
abbrev Each : (Pool → Type 0) → Dict ℕ Pool → Type 0
Each P pools = (id : ℕ) (p : Pool) → lookup id pools ≡ some p → P p

-- All connections that the pool ever opened are closed.
abbrev pub IsClosed : Pool → Type 0
IsClosed p = (c : ℕ) → contains p.opened c ≡ true → contains p.closed c ≡ true

close-IsClosed : (n : Network) (p : Pool) → IsAccounted p → IsClosed (close n p).1
close-IsClosed n p a c = close_closes n p c a

insert-Each :
    (P : Pool → Type 0) (id : ℕ) (p : Pool) (pools : Dict ℕ Pool)
    → P p
    → Each P pools
    → Each P (insert id p pools)
insert-Each P id p pools good each j q found = elim (Bool-cases (id == j)) [
  | inl same ↦
      subst P (some-injective p q (sym (lookup-insert id j p pools ∙ rw same refl) ∙ found)) good
  | inr other ↦ each j q (sym (lookup-insert id j p pools ∙ rw other refl) ∙ found)
]

add_pool-Each :
    (made : Option ℕ) (hosts : Dict Text Ssh) (pools : Dict ℕ Pool)
    → Each IsAccounted pools
    → Each IsAccounted (add_pool made hosts pools)
unfolding lookup
add_pool-Each none hosts pools each j q found = each j q found
add_pool-Each (some id) hosts pools each j q found = elim (Bool-cases (id == j)) [
  | inl same ↦
      subst IsAccounted (some-injective (new_pool hosts) q (rw same at found))
        (λ c h. absurd (cc h))
  | inr other ↦ each j q (rw other at found)
]

-- Closing another pool leaves a pool as it is.
lookup-close_pool :
    (n : Network) (id j : ℕ) (pools : Dict ℕ Pool)
    → lookup j (close_pool n id pools) ≡ (
        if id == j
        then elim (lookup j pools) [ none ↦ none | some p ↦ some (close n p).1 ]
        else lookup j pools)
unfolding close_pool
lookup-close_pool n id j pools = elim (Option-cases (lookup id pools)) [
  | inl gone ↦ rw (gone, close_pool) (ground arith)
  | inr (p, there) ↦ rw (there, close_pool) (rw lookup-insert (ground arith))
]

close_pool-Each :
    (n : Network) (id : ℕ) (pools : Dict ℕ Pool)
    → Each IsAccounted pools
    → Each IsAccounted (close_pool n id pools)
unfolding close_pool
close_pool-Each n id pools each = elim (Option-cases (lookup id pools)) [
  | inl gone ↦ rw (gone, close_pool) each
  | inr (p, there) ↦
      rw (there, close_pool)
        (insert-Each IsAccounted id (close n p).1 pools (close-IsAccounted n p (each id p there))
          each)
]

lookup-close_pools :
    (answers : ℕ → Network) (ids : List ℕ) (j : ℕ) (pools : Dict ℕ Pool)
    → contains ids j ≡ false
    → lookup j (close_pools answers ids pools) ≡ lookup j pools
unfolding close_pools
lookup-close_pools answers [] j pools h = refl
lookup-close_pools answers (id ∷ ids) j pools h =
    lookup-close_pools answers ids j (close_pool (answers id) id pools) (ground arith)
    ∙ lookup-close_pool (answers id) id j pools
    ∙ ground arith

close_pools-IsClosed :
    (answers : ℕ → Network) (ids : List ℕ) (pools : Dict ℕ Pool) (j : ℕ) (q : Pool)
    → Each IsAccounted pools
    → lookup j (close_pools answers ids pools) ≡ some q
    → contains ids j ≡ true
    → IsClosed q
unfolding close_pools
close_pools-IsClosed answers [] pools j q each found listed = absurd (cc listed)
close_pools-IsClosed answers (id ∷ ids) pools j q each found listed =
    let rest = close_pool (answers id) id pools in
    elim (Bool-cases (contains ids j)) [
      | inl again ↦
          close_pools-IsClosed answers ids rest j q (close_pool-Each (answers id) id pools each)
            found again
      | inr last ↦
          let same = lookup-close_pools answers ids j rest last in
          elim (Option-cases (lookup j pools)) [
            | inl gone ↦ absurd (ground (arith, lookup-close_pool (answers id) id j pools))
            | inr (p, there) ↦
                subst IsClosed
                  (some-injective (close (answers id) p).1 q
                    (ground (arith, lookup-close_pool (answers id) id j pools)))
                  (close-IsClosed (answers id) p (each j p there))
          ]
    ]

-- A pool that is added stands in the list that grew by it.
add_pool-listed :
    (made : Option ℕ) (hosts : Dict Text Ssh) (pools : Dict ℕ Pool) (ids : List ℕ) (j : ℕ)
    (q : Pool)
    → ((i : ℕ) (p : Pool) → lookup i pools ≡ some p → contains ids i ≡ true)
    → lookup j (add_pool made hosts pools) ≡ some q
    → contains (ids ++ pools_of made) j ≡ true
unfolding lookup
add_pool-listed none hosts pools ids j q listed found =
    contains-append ids [] j ∙ rw (listed j q found) refl
add_pool-listed (some id) hosts pools ids j q listed found = elim (Bool-cases (id == j)) [
  | inl same ↦ contains-append ids (id ∷ []) j ∙ ground arith
  | inr other ↦ contains-append ids (id ∷ []) j ∙ rw (listed j q (rw other at found)) refl
]

-- The pool under an identity that the state lists is closed.
lookup-shutdown :
    (answers : ℕ → Network) (ids : List ℕ) (j : ℕ) (pools : Dict ℕ Pool) (q : Pool)
    → lookup j (close_pools answers ids pools) ≡ some q
    → ((p : Pool) → lookup j pools ≡ some p → contains ids j ≡ true)
    → contains ids j ≡ true
lookup-shutdown answers ids j pools q found known = elim (Bool-cases (contains ids j)) [
  | inl listed ↦ listed
  | inr missing ↦ known q (sym (lookup-close_pools answers ids j pools missing) ∙ found)
]

module _ (std : Std) where
  -- The runtime state knows every pool, and each pool accounts for its connections.
  pub record IsKnown (s : Pools std) : Type 0 where
    pub listed :
        (id : ℕ) (p : Pool) → lookup id s.pools ≡ some p → contains s.runtime.ssh_pools id ≡ true
    pub accounted : Each IsAccounted s.pools

  first_pools-IsKnown :
      (engine : Engine std) (dry_run : Bool) (hosts : Dict Text Ssh) (id : ℕ)
      → IsKnown (first_pools std engine dry_run hosts id)
  unfolding first_pools new_runtime_state lookup
  first_pools-IsKnown engine dry_run hosts id = record {
    listed = λ j p found.
        add_pool-listed (new_ssh hosts id) hosts [] [] j p (λ i q h. absurd (cc h)) found;
    accounted = add_pool-Each (new_ssh hosts id) hosts [] (λ j p found. absurd (cc found));
  }

  Step-IsKnown : {s t : Pools std} → Step std s t → IsKnown s → IsKnown t
  unfolding install swap_engine lookup
  Step-IsKnown (reloads hosts id p s made free) k = record {
    listed =
        λ j q found. add_pool-listed p.pool hosts s.pools s.runtime.ssh_pools j q k.listed found;
    accounted = add_pool-Each p.pool hosts s.pools k.accounted;
  }
  Step-IsKnown (connects n host id p s there) k = record {
    listed = λ j q found. elim (Bool-cases (id == j)) [
      | inl same ↦
          subst (λ i. contains s.runtime.ssh_pools i ≡ true) (ground arith) (k.listed id p there)
      | inr other ↦
          k.listed j q (sym (lookup-insert id j (sftp n host p).1 s.pools ∙ rw other refl) ∙ found)
    ];
    accounted =
        insert-Each IsAccounted id (sftp n host p).1 s.pools
          (sftp-IsAccounted n host p (k.accounted id p there)) k.accounted;
  }

  Reach-IsKnown :
      (engine : Engine std) (dry_run : Bool) (hosts : Dict Text Ssh) (id : ℕ) {s : Pools std}
      → Reach std engine dry_run hosts id s
      → IsKnown s
  Reach-IsKnown engine dry_run hosts id here = first_pools-IsKnown engine dry_run hosts id
  Reach-IsKnown engine dry_run hosts id (next r step) =
      Step-IsKnown step (Reach-IsKnown engine dry_run hosts id r)

  -- Whatever reloads and uploads come before the end of the daemon, once `runtimeState.Close` has
  -- closed its pools, every connection that a pool of the start or of a reload opened is closed,
  -- whatever the network answers.
  pub shutdown-IsClosed :
      (engine : Engine std) (dry_run : Bool) (hosts : Dict Text Ssh) (id : ℕ) {s : Pools std}
      (answers : ℕ → Network) (j : ℕ) (q : Pool)
      → Reach std engine dry_run hosts id s
      → lookup j (shutdown std answers s).pools ≡ some q
      → IsClosed q
  unfolding shutdown
  shutdown-IsClosed engine dry_run hosts id {s} answers j q r found =
      let k = Reach-IsKnown engine dry_run hosts id r in
      close_pools-IsClosed answers s.runtime.ssh_pools s.pools j q k.accounted found
        (lookup-shutdown answers s.runtime.ssh_pools j s.pools q found (k.listed j))
