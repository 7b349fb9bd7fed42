-- ===== src/Run.antt =====
-- Runs of kernel code over a state: a result with the new state, or a fault from which the code
-- does not come back. A value returned with an error code is a result, not a fault.
use reference_monitor.Base.{Bool, ap, false, if◌then◌else◌, refl, subst, true, ◌≡◌, ◌≢◌}

pub data Fault : Type 0 where
  -- a read or a write through NULL
  null_deref : Fault
  -- a read or a write through an address that holds no object of the type
  bad_pointer : Fault
  -- a read past the end of a buffer that holds no terminator
  overrun : Fault
  -- a write past the end of a buffer
  overflow : Fault
  -- `kfree` of a pointer that was never set
  bad_free : Fault
  -- `spin_lock` by the holder, and `spin_unlock` of a free lock
  deadlock bad_unlock : Fault
  -- a loop that is still running when its fuel is used up
  hang : Fault
  -- a write to a read-only page
  protection : Fault

pub data Run (S : Type 0) (A : Type 0) : Type 0 where
  done : A → S → Run S A
  fault : Fault → Run S A

abbrev pub Cmd : Type 0 → Type 0 → Type 0
Cmd S A = S → Run S A

module _ {S : Type 0} where
  abbrev pub pure : {A : Type 0} → A → Cmd S A
  pure a s = done a s

  abbrev pub fail : {A : Type 0} → Fault → Cmd S A
  fail f s = fault f

  abbrev pub and_then : {A B : Type 0} → Run S A → (A → Cmd S B) → Run S B
  and_then (done a s) k = k a s
  and_then (fault f) k = fault f

  infixl 5 ◌>>=◌ ◌>>◌
  abbrev pub ◌>>=◌ : {A B : Type 0} → Cmd S A → (A → Cmd S B) → Cmd S B
  m >>= k = λ s. and_then (m s) k

  abbrev pub ◌>>◌ : {A B : Type 0} → Cmd S A → Cmd S B → Cmd S B
  m >> n = m >>= λ _. n

  -- The run comes back, with a result and a state for which `P` holds.
  abbrev pub Returns : {A : Type 0} → (A → S → Type 0) → Run S A → Type 0
  Returns P (done a s) = P a s
  Returns P (fault f) = ⊥

  pub Returns-bind :
      {A B : Type 0} (P : A → S → Type 0) (Q : B → S → Type 0) (r : Run S A) (k : A → Cmd S B)
      → Returns P r
      → ((a : A) (s : S) → P a s → Returns Q (k a s))
      → Returns Q (and_then r k)
  Returns-bind P Q (done a s) k h next = next a s h
  Returns-bind P Q (fault f) k h next = elim h [ ]

  pub Returns-mono :
      {A : Type 0} (P Q : A → S → Type 0) (r : Run S A)
      → Returns P r
      → ((a : A) (s : S) → P a s → Q a s)
      → Returns Q r
  Returns-mono P Q (done a s) h weaken = weaken a s h
  Returns-mono P Q (fault f) h weaken = elim h [ ]

  pub Returns-both :
      {A : Type 0} (P Q : A → S → Type 0) (r : Run S A)
      → Returns P r
      → Returns Q r
      → Returns (λ a s. P a s × Q a s) r
  Returns-both P Q (done a s) h h' = (h, h')
  Returns-both P Q (fault f) h h' = elim h [ ]

  -- If the run comes back, it is with a result and a state for which `P` holds.
  abbrev pub IfDone : {A : Type 0} → (A → S → Type 0) → Run S A → Type 0
  IfDone P (done a s) = P a s
  IfDone P (fault f) = Unit {0}

  pub IfDone-bind :
      {A B : Type 0} (P : A → S → Type 0) (Q : B → S → Type 0) (r : Run S A) (k : A → Cmd S B)
      → IfDone P r
      → ((a : A) (s : S) → P a s → IfDone Q (k a s))
      → IfDone Q (and_then r k)
  IfDone-bind P Q (done a s) k h next = next a s h
  IfDone-bind P Q (fault f) k h next = tt

  pub IfDone-mono :
      {A : Type 0} (P Q : A → S → Type 0) (r : Run S A)
      → IfDone P r
      → ((a : A) (s : S) → P a s → Q a s)
      → IfDone Q r
  IfDone-mono P Q (done a s) h weaken = weaken a s h
  IfDone-mono P Q (fault f) h weaken = tt

  pub IfDone-if :
      {A : Type 0} (P : A → S → Type 0) (b : Bool) (c d : Cmd S A) (s : S)
      → IfDone P (c s)
      → IfDone P (d s)
      → IfDone P ((if b then c else d) s)
  IfDone-if P true c d s h h' = h
  IfDone-if P false c d s h h' = h'

  -- The run ended because its fuel was used up.
  abbrev pub hangs : {A : Type 0} → Run S A → Bool
  hangs (done a s) = false
  hangs (fault hang) = true
  hangs (fault other) = false

  pub not-hang : {A : Type 0} (r : Run S A) → hangs r ≡ false → r ≢ fault hang
  not-hang r e h = let out = subst (λ z. hangs z ≡ false) h e in absurd (cc)

  pub hangs-bind :
      {A B : Type 0} (r : Run S A) (k : A → Cmd S B)
      → hangs r ≡ false
      → ((a : A) (s : S) → hangs (k a s) ≡ false)
      → hangs (and_then r k) ≡ false
  hangs-bind (done a s) k e h = h a s
  hangs-bind (fault hang) k e h = absurd (cc)
  hangs-bind (fault other) k e h = refl

  -- Two runs, of the same code on two amounts of fuel, are one, and it does not end for want of fuel.
  abbrev pub Settled : {A : Type 0} → Run S A → Run S A → Type 0
  Settled r r' = (r ≡ r') × (hangs r ≡ false)

  pub Settled-bind :
      {A B : Type 0} (P : A → S → Type 0) (r : Run S A) (k k' : A → Cmd S B)
      → hangs r ≡ false
      → IfDone P r
      → ((a : A) (s : S) → P a s → Settled (k a s) (k' a s))
      → Settled (and_then r k) (and_then r k')
  Settled-bind P (done a s) k k' e h next = next a s h
  Settled-bind P (fault hang) k k' e h next = absurd (cc)
  Settled-bind P (fault other) k k' e h next = (refl, refl)

  pub Settled-then :
      {A B : Type 0} (r r' : Run S A) (k : A → Cmd S B)
      → Settled r r'
      → ((a : A) (s : S) → hangs (k a s) ≡ false)
      → Settled (and_then r k) (and_then r' k)
  Settled-then r r' k (same, ends) next = (ap (λ z. and_then z k) same, hangs-bind r k ends next)

  pub Settled-if :
      {A : Type 0} (b : Bool) (x x' y y' : Cmd S A) (s : S)
      → Settled (x s) (x' s)
      → Settled (y s) (y' s)
      → Settled ((if b then x else y) s) ((if b then x' else y') s)
  Settled-if true x x' y y' s h h' = h
  Settled-if false x x' y y' s h h' = h'

  pub hangs-if :
      {A : Type 0} (b : Bool) (x y : Cmd S A) (s : S)
      → hangs (x s) ≡ false
      → hangs (y s) ≡ false
      → hangs ((if b then x else y) s) ≡ false
  hangs-if true x y s h h' = h
  hangs-if false x y s h h' = h'
