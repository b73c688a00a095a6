-- ===== src/Proc/Effect.antt =====
-- Operations on shared state that may return an error: what was changed before an error stays
-- changed. `W` is the state of everything outside the program (the storage, the databases, the
-- clock), and `E` the errors that come from there.
use yproxy.Base.{◌≡◌, refl, ap}

pub data Result {ℓ} (E A : Type ℓ) : Type ℓ where
  ok : A → Result E A
  err : E → Result E A

abbrev pub M {ℓ} : Type ℓ → Type ℓ → Type ℓ → Type ℓ
M W E A = W → Result E A × W

module _ {ℓ} {W E A B : Type ℓ} where
  abbrev pub continue : Result E A × W → (A → M W E B) → Result E B × W
  continue (ok a, w) f = f a w
  continue (err e, w) f = (err e, w)

  infixl 5 ◌>>=◌ ◌>>◌
  abbrev pub ◌>>=◌ : M W E A → (A → M W E B) → M W E B
  ◌>>=◌ m f w = continue (m w) f

  abbrev pub ◌>>◌ : M W E A → M W E B → M W E B
  m >> n = m >>= λ _. n

module _ {ℓ} {W E A : Type ℓ} where
  abbrev pub pure : A → M W E A
  pure a w = (ok a, w)

  abbrev pub raise : E → M W E A
  raise e w = (err e, w)

-- `P` holds after the operation if it held before, whatever the operation returns.
abbrev pub Keeps {ℓ} : {W E A : Type ℓ} → (W → Type ℓ) → M W E A → Type ℓ
Keeps {W = W} P m = (w : W) → P w → P (m w).1

module _ {ℓ} {W E A B : Type ℓ} (P : W → Type ℓ) where
  Keeps-continue :
      (r : Result E A × W) (f : A → M W E B)
      → P r.1
      → ((a : A) → r.0 ≡ ok a → Keeps P (f a))
      → P (continue r f).1
  Keeps-continue (ok a, w) f p kf = kf a refl w p
  Keeps-continue (err e, w) f p kf = p

  -- The rest of a block may use what the operation returned, and at which state.
  pub Keeps-bind :
      (m : M W E A) (f : A → M W E B)
      → Keeps P m
      → ((w : W) (a : A) → (m w).0 ≡ ok a → Keeps P (f a))
      → Keeps P (m >>= f)
  Keeps-bind m f km kf w p = Keeps-continue (m w) f (km w p) (kf w)

module _ {ℓ} {W E A B : Type ℓ} where
  continue-ok :
      (r : Result E A × W) (f : A → M W E B) (b : B)
      → (continue r f).0 ≡ ok b
      → (a : A) × (r.0 ≡ ok a) × ((f a r.1).0 ≡ ok b)
  continue-ok (ok a, w) f b h = (a, refl, h)
  continue-ok (err e, w) f b h = cc

  -- A block that returns has run its first step to its end.
  pub bind-ok :
      (m : M W E A) (f : A → M W E B) (w : W) (b : B)
      → ((m >>= f) w).0 ≡ ok b
      → (a : A) × ((m w).0 ≡ ok a) × ((f a (m w).1).0 ≡ ok b)
  bind-ok m f w b h = continue-ok (m w) f b h

  continue-eq : (r : Result E A × W) (f : A → M W E B) (a : A) → r.0 ≡ ok a → continue r f ≡ f a r.1
  continue-eq (ok b, w) f a h = let same : b ≡ a = cc h in ap (λ (x : A). f x w) same
  continue-eq (err e, w) f a h = cc

  -- After a step that returned, the block is the rest of it.
  pub bind-eq :
      (m : M W E A) (f : A → M W E B) (w : W) (a : A) → (m w).0 ≡ ok a → (m >>= f) w ≡ f a (m w).1
  bind-eq m f w a h = continue-eq (m w) f a h
