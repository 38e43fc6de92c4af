-- ===== src/Agent/Session/Ends.antt =====
-- What holds behind statements that return.
use long_running_coding_agen.Prelude.{dite, subst, ◌≡◌, refl, Bool, true, false, Result, ok, raise}
use long_running_coding_agen.Context.Turn.{BufferError}
use long_running_coding_agen.Agent.Session.{Statement, after, branch}

module _ {S : Type 0} where
  -- A statement raised, or it returned a value and left variables with `P`.
  abbrev pub Ends : {A : Type 0} → (A → S → Type 0) → Result BufferError A × S → Type 0
  Ends P (raise e, s) = Unit
  Ends P (ok a, s) = P a s

  pub after-Ends :
      {A B : Type 0} (Q : A → S → Type 0) (P : B → S → Type 0) (o : Result BufferError A × S)
      (f : A → Statement S B)
      → Ends Q o
      → ((a : A) (s : S) → Q a s → Ends P (f a s))
      → Ends P (after o f)
  after-Ends Q P (raise e, s) f h k = tt
  after-Ends Q P (ok a, s) f h k = k a s h

  -- Behind a statement of which nothing is known.
  pub then-Ends :
      {A B : Type 0} (P : B → S → Type 0) (o : Result BufferError A × S) (f : A → Statement S B)
      → ((a : A) (s : S) → Ends P (f a s))
      → Ends P (after o f)
  then-Ends P (raise e, s) f k = tt
  then-Ends P (ok a, s) f k = k a s

  pub branch-Ends :
      {A : Type 0} (P : A → S → Type 0) (b : Bool) (m n : Statement S A) (s : S)
      → (b ≡ true → Ends P (m s))
      → (b ≡ false → Ends P (n s))
      → Ends P (branch b m n s)
  branch-Ends P true m n s h k = h refl
  branch-Ends P false m n s h k = k refl

  pub dite-Ends :
      {A Q : Type 0} (P : A → S → Type 0) (d : Dec Q) (m : Q → Statement S A)
      (n : ¬ Q → Statement S A) (s : S)
      → ((q : Q) → Ends P (m q s))
      → ((q : ¬ Q) → Ends P (n q s))
      → Ends P (dite d m n s)
  dite-Ends P (yes q) m n s h k = h q
  dite-Ends P (no q) m n s h k = k q

  pub Ends-ok :
      {A : Type 0} (P : A → S → Type 0) (o : Result BufferError A × S) (a : A) (s : S)
      → o ≡ (ok a, s)
      → Ends P o
      → P a s
  Ends-ok P o a s e h = subst (Ends P) e h
