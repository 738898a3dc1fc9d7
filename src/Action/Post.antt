-- ===== src/Action/Post.antt =====
-- Postconditions of calls: `Q` of what a call returns and the state it leaves, `E` of an error and
-- that state.
use payment_gateway_router.Common.{◌≡◌, refl, sym, ap, subst, Bool, true, false, if◌then◌else◌}
use payment_gateway_router.Domain.Errors.{Error, Result, ok, err}
use payment_gateway_router.Action.{Action, ◌>>=◌, on_error, gets}

abbrev pub Post : {S A : Type 0} → (A → S → Type 0) → (Error → S → Type 0) → Result A × S → Type 0
Post Q E (ok a, s) = Q a s
Post Q E (err e, s) = E e s

abbrev pub Anything : {S A : Type 0} → A → S → Type 0
Anything a s = Unit

module _ {S A : Type 0} (R Q : A → S → Type 0) (E F : Error → S → Type 0) where
  pub Post-mono :
      (r : Result A × S)
      → Post R E r
      → ((a : A) (s : S) → R a s → Q a s)
      → ((e : Error) (s : S) → E e s → F e s)
      → Post Q F r
  Post-mono (ok a, s) h q f = q a s h
  Post-mono (err e, s) h q f = f e s h

abbrev continue : {S A B : Type 0} → Result A × S → (A → Action S B) → Result B × S
continue (r, s) f = elim r [ ok a ↦ f a s | err e ↦ (err e, s) ]

module _ {S A B : Type 0} (R : A → S → Type 0) (Q : B → S → Type 0) (E : Error → S → Type 0) where
  continue-Post :
      (r : Result A × S) (f : A → Action S B)
      → Post R E r
      → ((a : A) (s : S) → R a s → Post Q E (f a s))
      → Post Q E (continue r f)
  continue-Post (ok a, s) f h k = k a s h
  continue-Post (err e, s) f h k = h

  -- The rule of a `do` block.
  pub bind-Post :
      (m : Action S A) (f : A → Action S B) (s : S)
      → Post R E (m s)
      → ((a : A) (s' : S) → R a s' → Post Q E (f a s'))
      → Post Q E ((m >>= f) s)
  unfolding ◌>>=◌
  bind-Post m f s h k = continue-Post (m s) f h k

module _ {S A : Type 0} (Q : A → S → Type 0) (E : Error → S → Type 0) where
  pub if-Post :
      (b : Bool) (m n : Action S A) (s : S)
      → (b ≡ true → Post Q E (m s))
      → (b ≡ false → Post Q E (n s))
      → Post Q E ((if b then m else n) s)
  if-Post true m n s yes_case no_case = yes_case refl
  if-Post false m n s yes_case no_case = no_case refl

module _ {S A B : Type 0} (Q : B → S → Type 0) (E : Error → S → Type 0) where
  any-continue :
      (r : Result A × S) (f : A → Action S B)
      → ((e : Error) (s' : S) → E e s')
      → ((a : A) (s' : S) → Post Q E (f a s'))
      → Post Q E (continue r f)
  any-continue (ok a, s) f failed k = k a s
  any-continue (err e, s) f failed k = failed e s

  -- The rules of calls that return for sure.
  pub gets-Post :
      (g : S → A) (f : A → Action S B) (s : S) → Post Q E (f (g s) s) → Post Q E ((gets g >>= f) s)
  unfolding ◌>>=◌
  gets-Post g f s h = h

  pub step-Post :
      (m : Action S A) (a : A) (s' : S) (f : A → Action S B) (s : S)
      → m s ≡ (ok a, s')
      → Post Q E (f a s')
      → Post Q E ((m >>= f) s)
  unfolding ◌>>=◌
  step-Post m a s' f s e h = subst (λ r. Post Q E (continue r f)) (sym e) h

  -- A call that fails for sure.
  pub fail-Post :
      (m : Action S A) (e : Error) (s' : S) (f : A → Action S B) (s : S)
      → m s ≡ (err e, s')
      → E e s'
      → Post Q E ((m >>= f) s)
  unfolding ◌>>=◌
  fail-Post m e s' f s h k = subst (λ r. Post Q E (continue r f)) (sym h) k

  -- Where nothing needs to be known of a call.
  pub any-Post :
      (m : Action S A) (f : A → Action S B) (s : S)
      → ((e : Error) (s' : S) → E e s')
      → ((a : A) (s' : S) → Post Q E (f a s'))
      → Post Q E ((m >>= f) s)
  unfolding ◌>>=◌
  any-Post m f s failed k = any-continue (m s) f failed k

module _ {S A : Type 0} (Q : A → Type 0) (E : Error → S → Type 0) where
  pub ok-Post : (r : Result A × S) (a : A) → r.0 ≡ ok a → Q a → Post (λ a s. Q a) E r
  ok-Post (ok b, s) a e q = subst Q (sym (ap (elim [ ok c ↦ c | err _ ↦ a ]) e)) q
  ok-Post (err f, s) a e q = cc e

module _ {S A B : Type 0} (Q : A → Type 0) where
  cleaned-Post :
      (r : Result A) (s : S) (cleanup : Error → Action S B)
      → Post (λ a (s : S). Q a) Anything (r, s)
      → Post {S = S} {A = A}
          (λ a (s : S). Q a)
          Anything
          (elim r [ ok a ↦ (ok a, s) | err e ↦ (err e, (cleanup e s).1) ])
  cleaned-Post (ok a) s cleanup h = h
  cleaned-Post (err e) s cleanup h = tt

  pub on_error-Post :
      (m : Action S A) (cleanup : Error → Action S B) (s : S)
      → Post (λ a s. Q a) Anything (m s)
      → Post (λ a s. Q a) Anything (on_error m cleanup s)
  on_error-Post m cleanup s h = cleaned-Post (m s).0 (m s).1 cleanup h

module _ {S : Type 0} (I : S → Type 0) where
  -- A property of the state alone, whatever the result.
  pub state-Post : {A : Type 0} (r : Result A) (s : S) → I s → Post (λ a s. I s) (λ e s. I s) (r, s)
  state-Post (ok a) s h = h
  state-Post (err e) s h = h

  pub Post-state : {A : Type 0} (r : Result A × S) → Post (λ a s. I s) (λ e s. I s) r → I r.1
  Post-state (ok a, s) h = h
  Post-state (err e, s) h = h

  kept_either_way :
      {A B : Type 0} (r : Result A) (s : S) (cleanup : Error → Action S B)
      → Post (λ a s. I s) (λ e s. I s) (r, s)
      → ((e : Error) (s : S) → I s → I (cleanup e s).1)
      → Post {S = S} {A = A}
          (λ a s. I s)
          (λ e s. I s)
          (elim r [ ok a ↦ (ok a, s) | err e ↦ (err e, (cleanup e s).1) ])
  kept_either_way (ok a) s cleanup h k = h
  kept_either_way (err e) s cleanup h k = k e s h

  -- What a call and its cleanup both keep, they keep together.
  pub cleanup-Post :
      {A B : Type 0} (m : Action S A) (cleanup : Error → Action S B) (s : S)
      → Post (λ a s. I s) (λ e s. I s) (m s)
      → ((e : Error) (s : S) → I s → I (cleanup e s).1)
      → Post (λ a s. I s) (λ e s. I s) (on_error m cleanup s)
  cleanup-Post m cleanup s h k = kept_either_way (m s).0 (m s).1 cleanup h k

module _ {S A B : Type 0} where
  -- What a `do` block does after a call that is known.
  pub bind_ok :
      (m : Action S A) (f : A → Action S B) (s s' : S) (a : A)
      → m s ≡ (ok a, s')
      → (m >>= f) s ≡ f a s'
  unfolding ◌>>=◌
  bind_ok m f s s' a e = ap (λ r. continue r f) e
