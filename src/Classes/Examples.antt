-- ===== src/Classes/Examples.antt =====
-- Calls that register the classes of ffi/network.c and ffi/duckdb_shim.c, one alone and two at once.
use linen.Base.{ℕ, zero, suc, ◌≡◌, refl, some, List, [], ◌∷◌, reverse, arith}
use linen.Classes.{ended, unregistered, network_classes, turn, turn_of, turns_of}
use linen.Classes.Kept.{calls, Registered}
use linen.Classes.Ensured.{get_elem?, turns_of-Registered}
use linen.DuckDb.Handles.{all_kinds}

abbrev in_turn : List ℕ
in_turn = 0 ∷ 1 ∷ 0 ∷ 1 ∷ 0 ∷ 1 ∷ 0 ∷ 1 ∷ []

turns_of-Registered_example :
    (get_elem? (turns_of network_classes in_turn (calls 2) unregistered).0 1 ≡ some ended)
    × Registered network_classes (turns_of network_classes in_turn (calls 2) unregistered).1
turns_of-Registered_example =
    turns_of-Registered network_classes 2 1 in_turn (omega arith) (omega arith)

-- both load the flag before one stores it, so each class is registered twice
registered_twice :
    (turns_of network_classes in_turn (calls 2) unregistered).1.registered
    ≡ "event_loop_finalizer" ∷ "event_loop_finalizer" ∷ "socket_finalizer" ∷ "socket_finalizer" ∷ []
unfolding turn turn_of turns_of
registered_twice = refl

-- one after the other
registered_once :
    (turns_of network_classes (0 ∷ 0 ∷ 0 ∷ 0 ∷ 1 ∷ []) (calls 2) unregistered).1.registered
    ≡ reverse network_classes
unfolding turn turn_of turns_of
registered_once = refl

abbrev zeros : ℕ → List ℕ
zeros zero = []
zeros (suc n) = 0 ∷ zeros n

all_kinds_registered :
    (turns_of all_kinds (zeros 28) (calls 1) unregistered).1.registered ≡ reverse all_kinds
unfolding turn turn_of turns_of
all_kinds_registered = refl
