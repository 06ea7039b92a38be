-- ===== src/Tar/Archive/Reaches.antt =====
-- Statements that go on with one value, in a known state but for the outside world, of which the
-- input that is left is known.
use qubes_core_agent_linux.Base.{◌≡◌, ap, ◌∙◌, Bytes, ℕ}
use qubes_core_agent_linux.Tar.Source.{Source, IsStream, HasMemory}
use qubes_core_agent_linux.Tar.Machine.{State, Run, done, M, ◌>>=◌, allocate}

-- One statement after another.
pub bind_done :
    {S : Source} {A B : Type 0} (m : M S A) (f : A → M S B) (s : State S) {a : A} {t : State S}
    → m s ≡ done a t
    → (m >>= f) s ≡ f a t
bind_done m f s e = ap (λ r. ◌>>=◌ (λ _. r) f s) e

module _ {S : Source} (L : IsStream S) where
  abbrev pub Reaches : {A : Type 0} → Run S A → A → Bytes → (S.World → State S) → Type 0
  Reaches r a rest k = (w : S.World) × (L.input w ≡ rest) × (r ≡ done a (k w))

  pub Reaches-bind :
      {A B : Type 0} (m : M S A) (f : A → M S B) (s : State S) (a : A) (b : B) (rest rest' : Bytes)
      (k k' : S.World → State S)
      → Reaches (m s) a rest k
      → ((w : S.World) → L.input w ≡ rest → Reaches (f a (k w)) b rest' k')
      → Reaches ((m >>= f) s) b rest' k'
  Reaches-bind m f s a b rest rest' k k' (w, i, e) then_f =
      let (w', i', e') = then_f w i in (w', i', bind_done m f s e ∙ e')

  -- With memory for every request an allocation changes nothing.
  pub allocate-Reaches :
      (memory : HasMemory S) (n : ℕ) (s : State S)
      → Reaches (allocate n s) tt (L.input s.world) (λ w. record s { world = w })
  unfolding allocate
  allocate-Reaches memory n s =
      ((S.malloc n s.world).1, L.malloc_input n s.world, rw (memory.malloc_succeeds n s.world))
