-- ===== src/Process.antt =====
-- Programs as the calls they make: each call of a function outside the repository is a node, with a
-- branch for every reply. `fork` is such a call: one program stands for both processes.
use qubes_core_agent_linux.Base.{ℕ, zero, suc, Bool, true, false, Option, none, some}

-- What `fork` comes to: -1, or the process it goes on in, with the child's number in the parent.
pub data Fork : Type 0 where
  fork_failed child : Fork
  parent : ℕ → Fork

pub record Interface : Type 1 where
  pub Call : Type 0
  pub Reply : Call → Type 0

module _ (I : Interface) where
  -- `exits` is `exit` with a status, or a return from `main` by way of it.
  pub data Program (A : Type 0) : Type 0 where
    returns : A → Program A
    exits : ℕ → Program A
    calls : (c : I.Call) → (I.Reply c → Program A) → Program A

  -- What a program may do: which calls are allowed in which stage and where they lead, and what holds
  -- where it returns or exits.
  pub record Protocol (A : Type 0) : Type 1 where
    pub Stage : Type 0
    pub Allowed : Stage → I.Call → Type 0
    pub next : Stage → (c : I.Call) → I.Reply c → Stage
    pub Result : Stage → A → Type 0
    pub Exit : Stage → ℕ → Type 0

module _ {I : Interface} where
  infixl 5 ◌>>=◌ ◌>>◌
  abbrev pub ◌>>=◌ : {A B : Type 0} → Program I A → (A → Program I B) → Program I B
  returns a >>= f = f a
  exits n >>= f = exits n
  calls c k >>= f = calls c (λ r. k r >>= f)

  abbrev pub ◌>>◌ : {A B : Type 0} → Program I A → Program I B → Program I B
  m >> k = m >>= λ _. k

  abbrev pub request : (c : I.Call) → Program I (I.Reply c)
  request c = calls c returns

  -- Every path keeps to the protocol, whatever the replies are.
  abbrev pub Obeys : {A : Type 0} (P : Protocol I A) → P.Stage → Program I A → Type 0
  Obeys P s (returns a) = P.Result s a
  Obeys P s (exits n) = P.Exit s n
  Obeys P s (calls c k) = P.Allowed s c × ((r : I.Reply c) → Obeys P (P.next s c r) (k r))

  -- The protocol of a part of a program, up to what is to hold behind it.
  abbrev pub up_to : {A B : Type 0} (P : Protocol I A) → (P.Stage → B → Type 0) → Protocol I B
  up_to P R = record {
    Stage = P.Stage;
    Allowed = P.Allowed;
    next = P.next;
    Result = R;
    Exit = P.Exit;
  }

  pub Obeys-bind :
      {A B : Type 0} (P : Protocol I A) (R : P.Stage → B → Type 0) (s : P.Stage) (m : Program I B)
      (f : B → Program I A)
      → Obeys (up_to P R) s m
      → ((t : P.Stage) (b : B) → R t b → Obeys P t (f b))
      → Obeys P s (m >>= f)
  Obeys-bind P R s (returns b) f h k = k s b h
  Obeys-bind P R s (exits n) f h k = h
  Obeys-bind P R s (calls c g) f h k = (h.0, λ r. Obeys-bind P R (P.next s c r) (g r) f (h.1 r) k)

  -- A protocol that allows more, and says less at the ends.
  pub Obeys-forget :
      {A : Type 0} (P Q : Protocol I A) (s : P.Stage) (t : Q.Stage)
      → ((u : Q.Stage) (c : I.Call) → Q.Allowed u c)
      → ((r : P.Stage) (a : A) → P.Result r a → (u : Q.Stage) → Q.Result u a)
      → ((r : P.Stage) (n : ℕ) → P.Exit r n → (u : Q.Stage) → Q.Exit u n)
      → (m : Program I A) → Obeys P s m
      → Obeys Q t m
  Obeys-forget P Q s t allowed result exit (returns a) h = result s a h t
  Obeys-forget P Q s t allowed result exit (exits n) h = exit s n h t
  Obeys-forget P Q s t allowed result exit (calls c k) h = (
    allowed t c,
    λ r. Obeys-forget P Q (P.next s c r) (Q.next t c r) allowed result exit (k r) (h.1 r),
  )

-- A proof for each reply of two kinds.
abbrev pub either_reply : (M : Bool → Type 0) → M false → M true → (b : Bool) → M b
either_reply M x y false = x
either_reply M x y true = y

abbrev pub any_option :
    {A : Type 0} (M : Option A → Type 0) → M none → ((a : A) → M (some a)) → (o : Option A) → M o
any_option M x y none = x
any_option M x y (some a) = y a

abbrev pub any_number : (M : ℕ → Type 0) → M zero → ((n : ℕ) → M (suc n)) → (n : ℕ) → M n
any_number M x y zero = x
any_number M x y (suc n) = y n
