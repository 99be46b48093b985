-- ===== src/Exec.antt =====
-- `Result`, and calls that read and write a state `S` and may fail. What was written before an
-- error stays written, so the state comes back beside the error too.
use replicat.Prelude.{◌≡◌, refl, ◌⊎◌, inl, inr, Option, none, some, arith}

pub data Result (E A : Type 0) : Type 0 where
  ok : A → Result E A
  err : E → Result E A

abbrev pub map_err : {E F A : Type 0} → (E → F) → Result E A → Result F A
map_err f (ok a) = ok a
map_err f (err e) = err (f e)

abbrev pub Exec : Type 0 → Type 0 → Type 0 → Type 0
Exec S E A = S → Result E A × S

module _ {S E A : Type 0} where
  abbrev pub pure : A → Exec S E A
  pure a s = (ok a, s)

  abbrev pub raise : E → Exec S E A
  raise e s = (err e, s)

  abbrev pub lift : Result E A → Exec S E A
  lift r s = (r, s)

  abbrev pub gets : (S → A) → Exec S E A
  gets f s = (ok (f s), s)

abbrev pub modify : {S E : Type 0} → (S → S) → Exec S E Unit
modify f s = (ok tt, f s)

-- `.map_err(f)` on the result of a call
abbrev pub with_err : {S E F A : Type 0} → (E → F) → Exec S E A → Exec S F A
with_err f m s = let (r, s') = m s in (map_err f r, s')

abbrev pub map_ok : {E A B : Type 0} → (A → B) → Result E A → Result E B
map_ok f (ok a) = ok (f a)
map_ok f (err e) = err e

infixl 5 ◌>>=◌ ◌>>◌
abbrev pub ◌>>=◌ : {S E A B : Type 0} → Exec S E A → (A → Exec S E B) → Exec S E B
◌>>=◌ m f s = let (r, s') = m s in elim r [ ok a ↦ f a s' | err e ↦ (err e, s') ]

abbrev pub ◌>>◌ : {S E B : Type 0} → Exec S E Unit → Exec S E B → Exec S E B
m >> k = m >>= λ _. k

-- `.map(f).transpose()` on an optional value
abbrev pub transpose : {E A B : Type 0} → (A → Result E B) → Option A → Result E (Option B)
transpose f none = ok none
transpose f (some a) = elim (f a) [ ok b ↦ ok (some b) | err e ↦ err e ]

pub Result-cases :
    {E A : Type 0} (r : Result E A) → ((a : A) × (r ≡ ok a)) ⊎ ((e : E) × (r ≡ err e))
Result-cases (ok a) = inl (a, refl)
Result-cases (err e) = inr (e, refl)

pub map_err-eq-ok :
    {E F A : Type 0} (f : E → F) (r : Result E A) (a : A) → map_err f r ≡ ok a → r ≡ ok a
map_err-eq-ok f (ok b) a h = ground arith
map_err-eq-ok f (err x) a h = cc

pub map_ok-eq-ok :
    {E A B : Type 0} (f : A → B) (r : Result E A) (b : B)
    → map_ok f r ≡ ok b
    → (a : A) × (r ≡ ok a) × (f a ≡ b)
map_ok-eq-ok f (ok a) b h = (a, refl, ground arith)
map_ok-eq-ok f (err x) b h = cc

-- The parts of a sequence that succeeds.
module _ {S E A B : Type 0} where
  pub >>=-eq-ok :
      (m : Exec S E A) (f : A → Exec S E B) (s : S) (b : B)
      → ((m >>= f) s).0 ≡ ok b
      → (a : A) × ((m s).0 ≡ ok a) × ((f a (m s).1).0 ≡ ok b) × ((m >>= f) s ≡ f a (m s).1)
  >>=-eq-ok m f s b h = elim (Result-cases (m s).0) [
    | inl (a, e) ↦ (a, e, ground arith, ground arith)
    | inr (x, e) ↦ ground arith
  ]

  pub >>=-ok :
      (m : Exec S E A) (f : A → Exec S E B) (s : S) (a : A)
      → (m s).0 ≡ ok a
      → (m >>= f) s ≡ f a (m s).1
  >>=-ok m f s a e = ground arith

  pub >>=-err :
      (m : Exec S E A) (f : A → Exec S E B) (s : S) (x : E)
      → (m s).0 ≡ err x
      → (m >>= f) s ≡ (err x, (m s).1)
  >>=-err m f s x e = ground arith

  pub >>=-pure :
      (m : Exec S E A) (f : A → B) (s : S) → (m >>= λ a. pure (f a)) s ≡ (map_ok f (m s).0, (m s).1)
  >>=-pure m f s = ground arith

  -- What each part of a sequence keeps, the sequence keeps, also where it ends early.
  pub >>=-keeps {κ} :
      (P : S → Type κ) (m : Exec S E A) (f : A → Exec S E B) (s : S)
      → P (m s).1
      → ((a : A) → (m s).0 ≡ ok a → P (f a (m s).1).1)
      → P ((m >>= f) s).1
  >>=-keeps P m f s p q = elim (Result-cases (m s).0) [
    | inl (a, e) ↦ rw (>>=-ok m f s a e) (q a e)
    | inr (x, e) ↦ rw (>>=-err m f s x e) p
  ]

-- The value after a call that succeeded, or the one before a call that failed.
abbrev pub settled {ℓ} : {E A : Type 0} {B : Type ℓ} → Result E A → B → B → B
settled (ok _) new old = new
settled (err _) new old = old

pub settled_both {ℓ κ μ} :
    {E A : Type 0} {B : Type ℓ} {C : Type κ} (P : B → C → Type μ) (r : Result E A) (b b' : B)
    (c c' : C)
    → P b c
    → P b' c'
    → P (settled r b b') (settled r c c')
settled_both P (ok _) b b' c c' p p' = p
settled_both P (err _) b b' c c' p p' = p'

pub settled_same {ℓ} : {E A : Type 0} {B : Type ℓ} (r : Result E A) (b : B) → settled r b b ≡ b
settled_same (ok _) b = refl
settled_same (err _) b = refl
