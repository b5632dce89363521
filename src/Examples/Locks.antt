-- ===== src/Examples/Locks.antt =====
-- The theorems on the lock table (internal/locks/locks.go) at concrete inputs.
use ludock.Common.{◌≡◌, refl, true, false, none, some, [], ◌∷◌, Bytes, codes}
use ludock.Locks.{
  Table, Ticket, acquired, new_table, acquire, acquire_keys, release, normalize, overlaps,
  ordered_keys, next_release, acquire_preempting, Wait,
}
use ludock.Locks.Exclusion.{exclusive, Reachable, created, stepped, acquires, exclusive-Reachable}
use ludock.Locks.Release.{release-acquire_keys}
use ludock.Paths.{clean, components, join, split_from, push_all}

abbrev saves : Bytes
saves = codes "path:/srv/saves"

abbrev server : Bytes
server = codes "server:one"

-- The table after a backup of the saves has taken its keys.
abbrev busy : Table
busy = (acquire_keys (saves ∷ server ∷ []) none false new_table).1

abbrev ticket : Ticket
ticket = record {
  owner = record { number = 0; background = none };
  ordered = ordered_keys (saves ∷ server ∷ []);
}

reached : Reachable (acquire (saves ∷ server ∷ []) none new_table).1
reached = stepped created (acquires (saves ∷ server ∷ []) none)

exclusive-Reachable_example :
    exclusive (acquire (saves ∷ server ∷ []) none new_table).1.active ≡ true
exclusive-Reachable_example =
    exclusive-Reachable (acquire (saves ∷ server ∷ []) none new_table).1 reached

release-acquire_keys_example :
    ((release ticket busy).active ≡ [])
    × (release ticket (release ticket busy) ≡ release ticket busy)
unfolding acquire_keys new_table ordered_keys normalize clean components join split_from push_all
    overlaps
release-acquire_keys_example =
    release-acquire_keys (saves ∷ server ∷ []) none false new_table busy ticket refl refl

-- Cancelling the background work in the way and waiting for its release gets the keys.
preempting :
    (acquire_preempting
      (server ∷ [])
      none
      (acquire (server ∷ []) (some 7) new_table).1
      (Wait.woken new_table ∷ []))
    ≡ some (record {
      cancelled = 7 ∷ [];
      result =
          acquired
            (record { owner = record { number = 1; background = none }; ordered = server ∷ [] });
      table = (acquire (server ∷ []) none (next_release new_table).1).1;
    })
unfolding acquire_preempting acquire acquire_keys next_release new_table ordered_keys normalize
    clean components join split_from push_all overlaps
preempting = refl
