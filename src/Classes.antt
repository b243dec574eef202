-- ===== src/Classes.antt =====
-- The lazy registration of the external classes: `linen_ensure_classes_initialized` of ffi/network.c and
-- its counterparts in ffi/postgres.c, ffi/sqlite3_shim.c and ffi/duckdb_shim.c, called by several threads.
--
-- A turn of a call is one access to what the calls share. The flag is loaded and stored with acquire and
-- release, so turns are in one order. A class is named by its finalizer, or in DuckDb/Handles by its kind of handle (`all_kinds`).
pub mod Kept
pub mod Ensured
mod Examples
use linen.Base.{ℕ, zero, suc, Bool, true, false, Option, none, some, List, [], ◌∷◌, String}

-- where a call is: before the load of the flag, with these classes to register, after its end
pub data Ensuring (C : Type 0) : Type 0 where
  loading : Ensuring C
  registering : List C → Ensuring C
  ended : Ensuring C

-- the flag, and the classes that have been registered, the last one first
pub record Classes (C : Type 0) : Type 0 where
  pub initialized : Bool
  pub registered : List C

abbrev pub unregistered : {C : Type 0} → Classes C
unregistered = record { initialized = false; registered = [] }

-- the classes of each file, in the order of their registration
abbrev pub network_classes : List String
network_classes = "socket_finalizer" ∷ "event_loop_finalizer" ∷ []

abbrev pub pg_classes : List String
pg_classes = "conn_finalizer" ∷ "result_finalizer" ∷ []

abbrev pub sqlite3_classes : List String
sqlite3_classes =
    "db_finalizer" ∷ "stmt_finalizer" ∷ "funcctx_finalizer" ∷ "funcargs_finalizer" ∷ []

module _ {C : Type 0} (classes : List C) where
  -- `if (atomic_load_explicit(...)) return;`
  abbrev pub loaded : Bool → Ensuring C
  loaded true = ended
  loaded false = registering classes

  -- one turn of a call
  unfoldable pub turn : Ensuring C → Classes C → Ensuring C × Classes C
  turn loading s = (loaded s.initialized, s)
  turn (registering (c ∷ cs)) s =
      (registering cs, record { initialized = s.initialized; registered = c ∷ s.registered })
  turn (registering []) s = (ended, record { initialized = true; registered = s.registered })
  turn ended s = (ended, s)

  -- the turn of the call with this number, of those that are under way
  unfoldable pub turn_of : ℕ → List (Ensuring C) → Classes C → List (Ensuring C) × Classes C
  turn_of i [] s = ([], s)
  turn_of zero (p ∷ ps) s = let (q, s') = turn p s in (q ∷ ps, s')
  turn_of (suc i) (p ∷ ps) s = let (qs, s') = turn_of i ps s in (p ∷ qs, s')

  -- all turns, in the order in which the threads take them
  unfoldable pub turns_of : List ℕ → List (Ensuring C) → Classes C → List (Ensuring C) × Classes C
  turns_of [] ps s = (ps, s)
  turns_of (i ∷ is) ps s = let (qs, s') = turn_of i ps s in turns_of is qs s'
