-- ===== src/Base/Monad.antt =====
-- Methods on a state that may throw, or may wait forever for a mutex that the thread itself holds
-- (`std::mutex` is not recursive). What was written before a throw stays written.
use mathlib.Core.Bool.{Bool, true, false}
use mathlib.Core.Option.{Option, none, some}
use qt_web_server_chat.Base.Tests.{if◌then◌else◌}

pub data Outcome (S A : Type 0) : Type 0 where
  done : A → S → Outcome S A
  thrown : S → Outcome S A
  blocked : Outcome S A

abbrev pub Exec : Type 0 → Type 0 → Type 0
Exec S A = S → Outcome S A

module _ {S A : Type 0} where
  abbrev pub pure : A → Exec S A
  pure a s = done a s

  abbrev pub throw : Exec S A
  throw s = thrown s

module _ {S A B : Type 0} where
  abbrev pub continue : Outcome S A → (A → Exec S B) → Outcome S B
  continue (done a s) f = f a s
  continue (thrown s) f = thrown s
  continue blocked f = blocked

  infixl 5 ◌>>=◌ ◌>>◌
  abbrev pub ◌>>=◌ : Exec S A → (A → Exec S B) → Exec S B
  ◌>>=◌ m f s = continue (m s) f

  abbrev pub ◌>>◌ : Exec S A → Exec S B → Exec S B
  m >> n = m >>= λ _. n

module _ {S A : Type 0} where
  -- The end of a `lock_guard`'s scope, on a return and on a throw.
  abbrev pub unlock : (S → S) → Outcome S A → Outcome S A
  unlock free (done a s) = done a (free s)
  unlock free (thrown s) = thrown (free s)
  unlock free blocked = blocked

  -- A block under `std::lock_guard`: `held` reads the mutex, `mark` sets it.
  abbrev pub with_lock : (S → Bool) → (Bool → S → S) → Exec S A → Exec S A
  with_lock held mark m s = elim (held s) [
    | true ↦ blocked
    | false ↦ unlock (mark false) (m (mark true s))
  ]

  -- try { m } catch (const std::exception&) { handler }
  abbrev pub try_catch : Exec S A → Exec S A → Exec S A
  try_catch m handler s = elim (m s) [
    | done a t ↦ done a t
    | thrown t ↦ handler t
    | blocked ↦ blocked
  ]

-- The method returns, and the state that it leaves satisfies the predicate.
abbrev pub Returns : {S A : Type 0} → (S → Type 0) → Outcome S A → Type 0
Returns P (done a s) = P s
Returns P (thrown s) = ⊥
Returns P blocked = ⊥

-- From a state with the first predicate the method returns, in a state with the second.
pub record Triple {S A : Type 0} (P : S → Type 0) (m : Exec S A) (Q : S → Type 0) : Type 0 where
  pub at : (s : S) → P s → Returns Q (m s)

module _ {S A B : Type 0} {R Q : S → Type 0} where
  pub continue-Returns :
      (r : Outcome S A) (f : A → Exec S B)
      → Returns R r
      → ((a : A) → Triple R (f a) Q)
      → Returns Q (continue r f)
  continue-Returns (done a s) f h g = (g a).at s h
  continue-Returns (thrown s) f h g = h
  continue-Returns blocked f h g = h

module _ {S A B : Type 0} {P R Q : S → Type 0} where
  pub Triple-bind :
      {m : Exec S A} {f : A → Exec S B}
      → Triple P m R
      → ((a : A) → Triple R (f a) Q)
      → Triple P (m >>= f) Q
  Triple-bind {m} {f} h g = record { at = λ s p. continue-Returns (m s) f (h.at s p) g }

module _ {S A : Type 0} (P Q : S → Type 0) where
  pub Returns-weaken : (r : Outcome S A) → ((s : S) → P s → Q s) → Returns P r → Returns Q r
  Returns-weaken (done a s) h p = h s p
  Returns-weaken (thrown s) h p = p
  Returns-weaken blocked h p = p

-- The method returns, and its answer and the state that it leaves satisfy the predicate.
abbrev pub Answers : {S A : Type 0} → (A → S → Type 0) → Outcome S A → Type 0
Answers P (done a s) = P a s
Answers P (thrown s) = ⊥
Answers P blocked = ⊥

module _ {S A B : Type 0} (P : A → S → Type 0) (Q : S → Type 0) where
  pub continue-Answers :
      (r : Outcome S A) (f : A → Exec S B)
      → Answers P r
      → ((a : A) (t : S) → P a t → Returns Q (f a t))
      → Returns Q (continue r f)
  continue-Answers (done a s) f h g = g a s h
  continue-Answers (thrown s) f h g = h
  continue-Answers blocked f h g = h

module _ {S A B : Type 0} (R : S → Type 0) (P : B → S → Type 0) where
  pub Answers-continue :
      (r : Outcome S A) (f : A → Exec S B)
      → Returns R r
      → ((a : A) (t : S) → R t → Answers P (f a t))
      → Answers P (continue r f)
  Answers-continue (done a s) f h g = g a s h
  Answers-continue (thrown s) f h g = h
  Answers-continue blocked f h g = h

-- The method returns or throws, and the state that it leaves satisfies the predicate.
abbrev pub Settles : {S A : Type 0} → (S → Type 0) → Outcome S A → Type 0
Settles P (done a s) = P s
Settles P (thrown s) = P s
Settles P blocked = ⊥

-- The method never waits forever, and keeps the predicate, also when it throws.
pub record Calm {S A : Type 0} (P : S → Type 0) (m : Exec S A) : Type 0 where
  pub at : (s : S) → P s → Settles P (m s)

module _ {S A B : Type 0} {P : S → Type 0} where
  continue-Settles :
      (r : Outcome S A) (f : A → Exec S B)
      → Settles P r
      → ((a : A) → Calm P (f a))
      → Settles P (continue r f)
  continue-Settles (done a s) f h g = (g a).at s h
  continue-Settles (thrown s) f h g = h
  continue-Settles blocked f h g = h

  pub Calm-bind :
      {m : Exec S A} {f : A → Exec S B} → Calm P m → ((a : A) → Calm P (f a)) → Calm P (m >>= f)
  Calm-bind {m} {f} h g = record { at = λ s p. continue-Settles (m s) f (h.at s p) g }

module _ {S A : Type 0} (P : S → Type 0) where
  pub Calm-pure : (a : A) → Calm P (pure a)
  Calm-pure a = record { at = λ s p. p }

  Returns-Settles : (r : Outcome S A) → Returns P r → Settles P r
  Returns-Settles (done a s) p = p
  Returns-Settles (thrown s) p = absurd p
  Returns-Settles blocked p = p

  pub Calm-Returns : (m : Exec S A) → ((s : S) → P s → Returns P (m s)) → Calm P m
  Calm-Returns m h = record { at = λ s p. Returns-Settles (m s) (h s p) }

module _ {S A B : Type 0} {P : S → Type 0} where
  pub Calm-option :
      {m : Exec S B} {f : A → Exec S B} (o : Option A)
      → Calm P m
      → ((a : A) → Calm P (f a))
      → Calm P (elim o [ none ↦ m | some a ↦ f a ])
  Calm-option none h g = h
  Calm-option (some a) h g = g a

module _ {S B : Type 0} {P : S → Type 0} where
  pub Calm-if : {m n : Exec S B} (b : Bool) → Calm P m → Calm P n → Calm P (if b then m else n)
  Calm-if true h g = h
  Calm-if false h g = g

-- A method of a part of the state.
module _ {S T A : Type 0} where
  abbrev pub relocate : (T → S → S) → S → Outcome T A → Outcome S A
  relocate put s (done a t) = done a (put t s)
  relocate put s (thrown t) = thrown (put t s)
  relocate put s blocked = blocked

  abbrev pub focus : (S → T) → (T → S → S) → Exec T A → Exec S A
  focus get put m s = relocate put s (m (get s))

  pub relocate-Returns :
      {P : T → Type 0} (Q : S → Type 0) (put : T → S → S) (s : S) (r : Outcome T A)
      → Returns P r
      → ((t : T) → P t → Q (put t s))
      → Returns Q (relocate put s r)
  relocate-Returns Q put s (done a t) p h = h t p
  relocate-Returns Q put s (thrown t) p h = p
  relocate-Returns Q put s blocked p h = p
