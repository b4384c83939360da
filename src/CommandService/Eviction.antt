-- ===== src/CommandService/Eviction.antt =====
-- core/runtime/command_service.cpp: the loop that keeps the remembered commands within the limit.
use cns_server.Base.{
  ℕ, zero, suc, ◌+◌, ◌≤◌, ◌<◌, ◌≡◌, String, true, [], ◌∷◌, length, arith, string_eq, eq_refl,
}
use cns_server.Base.Map.{Map, find, erase, contains}
use cns_server.CommandService.{CompletedCommand, oldest_from, erase_oldest, evict}

module _ {V : Type 0} where
  length-erase_le : (k : String) (m : Map String V) → length (erase k m) ≤ length m
  unfolding erase
  length-erase_le k [] = ground arith
  length-erase_le k ((j, v) ∷ m) = ground (arith, length-erase_le k m)

  length-erase_less :
      (k : String) (m : Map String V) → contains k m ≡ true → length (erase k m) < length m
  unfolding erase contains find
  length-erase_less k [] h = ground arith
  length-erase_less k ((j, v) ∷ m) h = ground (arith, length-erase_le k m, length-erase_less k m)

module _ {J : Type 0} where
  contains-oldest_from :
      (id : String) (at : ℕ) (c : CompletedCommand J) (m : Map String (CompletedCommand J))
      → contains (oldest_from id at m) ((id, c) ∷ m) ≡ true
  unfolding oldest_from contains find
  contains-oldest_from id at c [] = ground (arith, eq_refl id)
  contains-oldest_from id at c ((j, d) ∷ m) =
      ground (arith, contains-oldest_from j d.remembered_at d m, contains-oldest_from id at c m)

  length-erase_oldest :
      (m : Map String (CompletedCommand J)) → 0 < length m → length (erase_oldest m) < length m
  unfolding erase_oldest
  length-erase_oldest [] h = ground arith
  length-erase_oldest ((id, c) ∷ m) h =
      length-erase_less (oldest_from id c.remembered_at m) ((id, c) ∷ m)
        (contains-oldest_from id c.remembered_at c m)

  pub length-evict :
      (max_commands fuel : ℕ) (m : Map String (CompletedCommand J))
      → length m ≤ fuel + max_commands
      → length (evict max_commands fuel m) ≤ max_commands
  unfolding evict
  length-evict max_commands zero m h = omega (arith, h)
  length-evict max_commands (suc fuel) m h =
      ground (arith, length-erase_oldest m, length-evict max_commands fuel (erase_oldest m))
