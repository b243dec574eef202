-- ===== src/Sqlite/Registration.antt =====
-- The registration of functions in ffi/sqlite3_shim.c, and the references to their closures.
use linen.Base.{
  ℕ, zero, suc, ◌≡◌, refl, sym, subst, Bool, true, false, Option, some, none, List, [], ◌∷◌, ◌++◌,
  replicate, ℤ, if◌then◌else◌,
}
use linen.Sqlite.{is_ok, uint32_of}
use linen.Sqlite.Database.{text_rep}

-- `lean_inc_ref` and `lean_dec_ref` on the closure
pub data RefEvent : Type 0 where
  inc_ref dec_ref : RefEvent

-- What `sqlite3_create_function_v2` answers, and how often it calls `xDestroy` on the closure meanwhile.
pub record Registered : Type 0 where
  pub rc : ℤ
  pub destroyed : ℕ

-- SQLite's function of the name, the number of arguments, the flags, and whether there is a closure
abbrev pub Registrar : Type 0 → Type 0
Registrar W = List ℕ → ℤ → ℕ → Bool → W → Registered × W

-- the references after the call of SQLite
abbrev pub ref_events : Registered → List RefEvent
ref_events r =
    inc_ref
    ∷ (replicate r.destroyed dec_ref ++ ((if is_ok r.rc then [] else dec_ref ∷ []) ++ dec_ref ∷ []))

-- `linen_sqlite3_create_function` with `linen_sqlite3_xdestroy_trampoline`: the code, and the references to `f`
pub create_function : {W : Type 0} → Registrar W → List ℕ → ℤ → Bool → W → ℕ × List RefEvent × W
create_function create_v2 name n_arg deterministic w =
    let (r, w') = create_v2 name n_arg (text_rep deterministic) true w in
    (uint32_of r.rc, ref_events r, w')

-- `linen_sqlite3_delete_function`
pub delete_function : {W : Type 0} → Registrar W → List ℕ → ℤ → W → ℕ × W
delete_function create_v2 name n_arg w =
    let (r, w') = create_v2 name n_arg (text_rep false) false w in (uint32_of r.rc, w')

-- the references left of `n`, or `none` when one is released that is not there
abbrev pub refs : List RefEvent → ℕ → Option ℕ
refs [] n = some n
refs (inc_ref ∷ es) n = refs es (suc n)
refs (dec_ref ∷ es) zero = none
refs (dec_ref ∷ es) (suc n) = refs es n

-- what SQLite documents: `xDestroy` is called on a closure that it fails to register, and on no other
abbrev pub Destroys : {W : Type 0} → Registrar W → Type 0
Destroys {W} create_v2 =
    (name : List ℕ) (n_arg : ℤ) (flags : ℕ) (w : W)
    → (create_v2 name n_arg flags true w).0.destroyed
      ≡ (if is_ok (create_v2 name n_arg flags true w).0.rc then 0 else 1)

ref_events-refs :
    (rc : ℤ) (b : Bool) (n : ℕ)
    → is_ok rc ≡ b
    → (refs (ref_events (record { rc = rc; destroyed = if b then 0 else 1 })) 1
        ≡ (if b then some 1 else none))
      × (refs (ref_events (record { rc = rc; destroyed = if b then 0 else 1 })) (suc (suc n))
          ≡ some (if b then suc (suc n) else n))
ref_events-refs rc true n h = rw h (refl, refl)
ref_events-refs rc false n h = rw h (refl, refl)

-- `linen_sqlite3_create_function` over an SQLite that calls `xDestroy` as it documents. Its argument is one
-- reference to the closure. On success the reference is SQLite's, and as many are there as before. On a failure
-- two are released for it, `xDestroy` being called already: of one reference the second release is of a closure
-- that is gone, and of n + 2 only n are left.
pub create_function-refs :
    {W : Type 0} (create_v2 : Registrar W)
    → Destroys create_v2
    → (name : List ℕ) (n_arg : ℤ) (deterministic : Bool) (n : ℕ) (w : W)
    → let done = is_ok (create_v2 name n_arg (text_rep deterministic) true w).0.rc in
      let events = (create_function create_v2 name n_arg deterministic w).1 in
      (refs events 1 ≡ (if done then some 1 else none))
      × (refs events (suc (suc n)) ≡ some (if done then suc (suc n) else n))
unfolding create_function
create_function-refs create_v2 documented name n_arg deterministic n w =
    let r = (create_v2 name n_arg (text_rep deterministic) true w).0 in
    subst
      (λ k.
        (refs (ref_events (record { rc = r.rc; destroyed = k })) 1
          ≡ (if is_ok r.rc then some 1 else none))
        × (refs (ref_events (record { rc = r.rc; destroyed = k })) (suc (suc n))
            ≡ some (if is_ok r.rc then suc (suc n) else n)))
      (sym (documented name n_arg (text_rep deterministic) w))
      (ref_events-refs r.rc (is_ok r.rc) n refl)
