-- ===== src/Tar/Machine/Ends.antt =====
-- Postconditions of statements, with a rule for one statement after the other.
use qubes_core_agent_linux.Base.{Bool, true, false, Option, none, some, ◌≡◌, refl, if◌then◌else◌}
use qubes_core_agent_linux.Tar.Source.{Source}
use qubes_core_agent_linux.Tar.Machine.{
  State, Run, done, no_memory, exits, fault, no_fuel, M, ◌>>=◌,
}

module _ {S : Source} where
  -- `Q` holds where the statement goes on, `P` where it leaves, and `F` if it has no fuel left.
  -- Nothing is said of what C leaves undefined.
  abbrev pub Ends :
      {A : Type 0} → Type 0 → (A → State S → Type 0) → (State S → Type 0) → Run S A → Type 0
  Ends F Q P (done a t) = Q a t
  Ends F Q P (no_memory t) = P t
  Ends F Q P (exits n t) = P t
  Ends F Q P fault = Unit
  Ends F Q P no_fuel = F

  pub Ends-bind :
      {A B : Type 0} (F : Type 0) (Q : A → State S → Type 0) (R : B → State S → Type 0)
      (P : State S → Type 0) (m : M S A) (f : A → M S B) (s : State S)
      → Ends F Q P (m s)
      → ((a : A) (t : State S) → Q a t → Ends F R P (f a t))
      → Ends F R P ((m >>= f) s)
  Ends-bind F Q R P m f s h k = go (m s) h
    where
      go : (r : Run S _) → Ends F Q P r → Ends F R P (◌>>=◌ (λ _. r) f s)
      go (done a t) q = k a t q
      go (no_memory t) p = p
      go (exits n t) p = p
      go fault p = p
      go no_fuel p = p

  pub Ends-if :
      {A : Type 0} (F : Type 0) (Q : A → State S → Type 0) (P : State S → Type 0) (b : Bool)
      (x y : Run S A)
      → Ends F Q P x
      → Ends F Q P y
      → Ends F Q P (if b then x else y)
  Ends-if F Q P true x y h k = h
  Ends-if F Q P false x y h k = k

  pub Ends-weaken :
      {A : Type 0} (F : Type 0) (Q R : A → State S → Type 0) (P : State S → Type 0) (r : Run S A)
      → Ends F Q P r
      → ((a : A) (t : State S) → Q a t → R a t)
      → Ends F R P r
  Ends-weaken F Q R P (done a t) h k = k a t h
  Ends-weaken F Q R P (no_memory t) h k = h
  Ends-weaken F Q R P (exits n t) h k = h
  Ends-weaken F Q R P fault h k = h
  Ends-weaken F Q R P no_fuel h k = h

  pub Ends-elim :
      {A B : Type 0} (F : Type 0) (Q : A → State S → Type 0) (P : State S → Type 0) (o : Option B)
      (x : Run S A) (y : B → Run S A)
      → Ends F Q P x
      → ((b : B) → Ends F Q P (y b))
      → Ends F Q P (elim o [ none ↦ x | some b ↦ y b ])
  Ends-elim F Q P none x y h k = h
  Ends-elim F Q P (some b) x y h k = k b

  pub Ends-map :
      {A : Type 0} (F F' : Type 0) (Q Q' : A → State S → Type 0) (P P' : State S → Type 0)
      (r : Run S A)
      → (F → F')
      → ((a : A) (t : State S) → Q a t → Q' a t)
      → ((t : State S) → P t → P' t)
      → Ends F Q P r
      → Ends F' Q' P' r
  Ends-map F F' Q Q' P P' (done a t) f q p h = q a t h
  Ends-map F F' Q Q' P P' (no_memory t) f q p h = p t h
  Ends-map F F' Q Q' P P' (exits n t) f q p h = p t h
  Ends-map F F' Q Q' P P' fault f q p h = h
  Ends-map F F' Q Q' P P' no_fuel f q p h = f h

  -- The same, where the case knows the value.
  pub Ends-elim_eq :
      {A B : Type 0} (F : Type 0) (Q : A → State S → Type 0) (P : State S → Type 0) (o : Option B)
      (x : Run S A) (y : B → Run S A)
      → Ends F Q P x
      → ((b : B) → o ≡ some b → Ends F Q P (y b))
      → Ends F Q P (elim o [ none ↦ x | some b ↦ y b ])
  Ends-elim_eq F Q P none x y h k = h
  Ends-elim_eq F Q P (some b) x y h k = k b refl
