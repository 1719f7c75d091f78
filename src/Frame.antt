-- ===== src/Frame.antt =====
-- What the pallets use of FRAME: storage maps, origins, and dispatchable calls as actions on the
-- pallet's storage that may fail. What was written before an error is still in the state that
-- comes back with it; `dispatch` is the storage layer in which the runtime runs a call, and it
-- drops those writes.
use nulla_relay.Prelude.{ℕ, Bool, true, false, Option, none, some, ◌==◌, if◌then◌else◌}

-- `frame_system::RawOrigin`; `unsigned` is `None`.
pub data Origin : Type 0 where
  root unsigned : Origin
  signed : ℕ → Origin

-- An error of a call: a bad origin, an error of the currency, or one of the pallet's own; or a
-- panic, after which the runtime drops the call's writes too.
pub data DispatchError (E : Type 0) : Type 0 where
  bad_origin token panicked : DispatchError E
  pallet : E → DispatchError E

pub data Result (E A : Type 0) : Type 0 where
  ok : A → Result E A
  err : E → Result E A

abbrev pub is_ok : {E A : Type 0} → Result E A → Bool
is_ok (ok a) = true
is_ok (err e) = false

-- A storage map by its contents at each key: `Option V` for `OptionQuery`, `V` with its default
-- for `ValueQuery`.
abbrev pub StorageMap : Type 0 → Type 0
StorageMap V = ℕ → V

abbrev pub update : {V : Type 0} → ℕ → V → StorageMap V → StorageMap V
update k v m j = if j == k then v else m j

abbrev pub Exec : Type 0 → Type 0 → Type 0 → Type 0
Exec S E A = S → Result (DispatchError E) A × S

module _ {S E A : Type 0} where
  abbrev pub pure : A → Exec S E A
  pure a s = (ok a, s)

  abbrev pub fail : DispatchError E → Exec S E A
  fail e s = (err e, s)

  abbrev pub gets : (S → A) → Exec S E A
  gets f s = (ok (f s), s)

  -- `o.ok_or(Error::<T>::e)?`
  abbrev pub ok_or : Option A → E → Exec S E A
  ok_or o e s = (elim o [ none ↦ err (pallet e) | some a ↦ ok a ], s)

  -- A value that the code computes without a check, `none` where that panics.
  abbrev pub or_panic : Option A → Exec S E A
  or_panic o s = (elim o [ none ↦ err panicked | some a ↦ ok a ], s)

module _ {S E : Type 0} where
  abbrev pub modify : (S → S) → Exec S E (Unit {0})
  modify f s = (ok tt, f s)

  -- `ensure!(b, Error::<T>::e)`
  abbrev pub ensure : Bool → E → Exec S E (Unit {0})
  ensure b e s = (if b then ok tt else err (pallet e), s)

  -- `T::AdminOrigin::ensure_origin(origin)?`, from what the configured check says of the origin
  abbrev pub ensure_origin : Bool → Exec S E (Unit {0})
  ensure_origin b s = (if b then ok tt else err bad_origin, s)

  abbrev pub ensure_signed : Origin → Exec S E ℕ
  ensure_signed (Origin.signed who) = pure who
  ensure_signed Origin.root = fail bad_origin
  ensure_signed Origin.unsigned = fail bad_origin

  abbrev pub ensure_root : Origin → Exec S E (Unit {0})
  ensure_root Origin.root = pure tt
  ensure_root Origin.unsigned = fail bad_origin
  ensure_root (Origin.signed who) = fail bad_origin

  abbrev pub ensure_none : Origin → Exec S E (Unit {0})
  ensure_none Origin.unsigned = pure tt
  ensure_none Origin.root = fail bad_origin
  ensure_none (Origin.signed who) = fail bad_origin

-- An error ends the call.
abbrev pub continue :
    {S E A B : Type 0} → Result (DispatchError E) A → (A → Exec S E B) → Exec S E B
continue (ok a) f s = f a s
continue (err e) f s = (err e, s)

infixl 5 ◌>>=◌ ◌>>◌
abbrev pub ◌>>=◌ : {S E A B : Type 0} → Exec S E A → (A → Exec S E B) → Exec S E B
◌>>=◌ m f s = let (r, s') = m s in continue r f s'

abbrev pub ◌>>◌ : {S E A B : Type 0} → Exec S E A → Exec S E B → Exec S E B
m >> k = m >>= λ _. k

-- `with_storage_layer`: the writes of a call that fails are dropped.
abbrev pub commit : {S E A : Type 0} → S → Result E A × S → S
commit s (ok a, s') = s'
commit s (err e, s') = s

abbrev pub dispatch : {S E A : Type 0} → Exec S E A → S → S
dispatch m s = commit s (m s)
