-- ===== src/Store/Act.antt =====
-- Methods of *Store that write its fields: actions on the store and the world. What a method wrote
-- before an error stays written.
use angou.Prelude.{◌≡◌, refl}
use angou.Prelude.{Result, ok, err}
use angou.External.{External}
use angou.World.{World, M}
use angou.Store.Core.{Store}

pub record Cell (x : External) : Type 0 where
  pub store : Store x
  pub world : World

abbrev pub Act : External → Type 0 → Type 0
Act x A = Cell x → Result A × Cell x

module _ {x : External} where
  abbrev pub pure : {A : Type 0} → A → Act x A
  pure a c = (ok a, c)

  abbrev pub lift : {A : Type 0} → Result A → Act x A
  lift r c = (r, c)

  abbrev pub continue : {A B : Type 0} → Result A × Cell x → (A → Act x B) → Result B × Cell x
  continue (ok a, c) f = f a c
  continue (err e, c) f = (err e, c)

  infixl 5 ◌>>=◌ ◌>>◌
  abbrev pub ◌>>=◌ : {A B : Type 0} → Act x A → (A → Act x B) → Act x B
  ◌>>=◌ m f c = continue (m c) f

  abbrev pub ◌>>◌ : {A B : Type 0} → Act x A → Act x B → Act x B
  m >> k = m >>= λ _. k

  -- An action on the world that reads the store.
  abbrev pub reads : {A : Type 0} → (Store x → M A) → Act x A
  reads m c = let (r, w) = m c.store c.world in (r, record c { world = w })

  -- An assignment to fields of the store.
  abbrev pub modify : (Store x → Store x) → Act x (Unit {0})
  modify f c = (ok tt, record c { store = f c.store })

  -- Inversion of an action that returned no error, for a first step that leaves the cell alone and
  -- for one that changes the world.
  pub lift-eq-ok :
      {A B : Type 0} (r : Result A) (c : Cell x) (f : A → Act x B) {b : B} {c' : Cell x}
      → continue (r, c) f ≡ (ok b, c')
      → (a : A) × (r ≡ ok a) × (f a c ≡ (ok b, c'))
  lift-eq-ok (ok a) c f h = (a, refl, h)
  lift-eq-ok (err e) c f h = cc

  pub reads-eq-ok :
      {A B : Type 0} (s : Store x) (p : Result A × World) (f : A → Act x B) {b : B} {c' : Cell x}
      → continue (p.0, record { store = s; world = p.1 }) f ≡ (ok b, c')
      → (a : A) × (w : World) × (p ≡ (ok a, w))
        × (f a (record { store = s; world = w }) ≡ (ok b, c'))
  reads-eq-ok s (ok a, w) f h = (a, w, refl, h)
  reads-eq-ok s (err e, w) f h = cc

  pub act-eq-ok :
      {A B : Type 0} (p : Result A × Cell x) (f : A → Act x B) {b : B} {c' : Cell x}
      → continue p f ≡ (ok b, c')
      → (a : A) × (c1 : Cell x) × (p ≡ (ok a, c1)) × (f a c1 ≡ (ok b, c'))
  act-eq-ok (ok a, c1) f h = (a, c1, refl, h)
  act-eq-ok (err e, c1) f h = cc
