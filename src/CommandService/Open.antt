-- ===== src/CommandService/Open.antt =====
-- core/runtime/command_service.cpp: which operations the database still has, by what passed between it
-- and the service.
use cns_server.Base.{
  ℕ, ◌≡◌, refl, List, [], ◌∷◌, ◌++◌, none, nat_eq, if◌then◌else◌, length, arith, ℕ_eq,
}
use cns_server.Base.Map.{Map, find, insert, erase}
use cns_server.CommandService.{DatabaseTrace, accepts, handles, gives_up}

unfoldable pub without : ℕ → List ℕ → List ℕ
without id [] = []
without id (x ∷ xs) = let rest = without id xs in if nat_eq x id then rest else x ∷ rest

-- The operations accepted since the work was last given up, less those whose answer was handled.
unfoldable pub open_operations : List DatabaseTrace → List ℕ
unfolding without
open_operations [] = []
open_operations (accepts id ∷ trace) = open_operations trace ++ id ∷ []
open_operations (handles id ∷ trace) = without id (open_operations trace)
open_operations (gives_up ∷ trace) = []

module _ {V : Type 0} where
  unfoldable pub keys : Map ℕ V → List ℕ
  keys [] = []
  keys ((k, v) ∷ m) = k ∷ keys m

  pub length-keys : (m : Map ℕ V) → length (keys m) ≡ length m
  unfolding keys
  length-keys [] = refl
  length-keys ((k, v) ∷ m) = ground (arith, length-keys m)

  pub keys-insert_fresh :
      (k : ℕ) (v : V) (m : Map ℕ V) → find k m ≡ none → keys (insert k v m) ≡ keys m ++ k ∷ []
  unfolding keys insert find
  keys-insert_fresh k v [] h = refl
  keys-insert_fresh k v ((j, w) ∷ m) h = ground (arith, keys-insert_fresh k v m)

  pub keys-erase : (k : ℕ) (m : Map ℕ V) → keys (erase k m) ≡ without k (keys m)
  unfolding keys erase without
  keys-erase k [] = refl
  keys-erase k ((j, w) ∷ m) = ground (arith, keys-erase k m)

  pub without-keys_absent : (k : ℕ) (m : Map ℕ V) → find k m ≡ none → without k (keys m) ≡ keys m
  unfolding keys find without
  without-keys_absent k [] h = refl
  without-keys_absent k ((j, w) ∷ m) h = ground (arith, without-keys_absent k m)
