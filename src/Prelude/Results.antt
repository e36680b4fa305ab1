-- ===== src/Prelude/Results.antt =====
-- How a call ends: with a value, or by `die`/`exit`, or in undefined behaviour.
use mathlib.Core.Path.{◌≡◌, refl}
use mathlib.Core.Bool.{Bool, true, false}

pub data Fault : Type 0 where
  socket_failed bind_failed listen_failed connect_failed : Fault
  sendto_failed recvfrom_failed select_failed : Fault
  fopen_failed null_file null_pointer overread overflow bad_line rename_failed option_failed : Fault

-- A value, or the fault that ended the process.
pub data Result {ℓ} (V : Type ℓ) : Type ℓ where
  err : Fault → Result V
  ok : V → Result V

module _ {ℓ κ} {V : Type ℓ} {W : Type κ} where
  -- The rest of a function, which runs only where the process still does.
  infixl 5 ◌>>=◌
  abbrev pub ◌>>=◌ : Result V → (V → Result W) → Result W
  err fault >>= go = err fault
  ok v >>= go = go v

  -- A sequence that ends with a value has a value between its parts.
  pub >>=-eq-ok :
      (r : Result V) (go : V → Result W) {w : W}
      → (r >>= go) ≡ ok w
      → (v : V) × (r ≡ ok v) × (go v ≡ ok w)
  >>=-eq-ok (err fault) go h = cc
  >>=-eq-ok (ok v) go h = (v, refl, h)

  pub ok-pair :
      (v v' : V) (w w' : W)
      → ◌≡◌ {A = Result (V × W)} (ok (v, w)) (ok (v', w'))
      → (v ≡ v') × (w ≡ w')
  ok-pair v v' w w' h = (cc, cc)

module _ {ℓ} {V : Type ℓ} where
  pub ok-eq : (v v' : V) → ◌≡◌ {A = Result V} (ok v) (ok v') → v ≡ v'
  ok-eq v v' h = cc

  -- A call that returns nothing, and the rest behind it.
  infixl 5 ◌>>◌
  abbrev pub ◌>>◌ : Result (Unit {0}) → Result V → Result V
  err fault >> rest = err fault
  ok done >> rest = rest

-- `if (!test) die(...)`
abbrev pub guard : Bool → Fault → Result (Unit {0})
guard false fault = err fault
guard true fault = ok tt

module _ {ℓ} {V : Type ℓ} where
  pub guard-eq-ok :
      (test : Bool) (fault : Fault) (rest : Result V) {v : V}
      → (guard test fault >> rest) ≡ ok v
      → rest ≡ ok v
  guard-eq-ok false fault rest h = cc
  guard-eq-ok true fault rest h = h
