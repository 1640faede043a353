-- ===== src/Exec.antt =====
-- Code that changes the world and may raise. What was done before a raise stays done, so the state
-- comes back beside the exception too.
use halt_proof.Base.{
  ◌≡◌, refl, ◌∙◌, sym, ap, subst, Bool, true, false, List, [], ◌∷◌, ◌++◌, if◌then◌else◌,
}
use halt_proof.Base.Results.{Result, ok, err, ok_injective}
use halt_proof.Errors.{Exn}

abbrev pub Exec : Type 0 → Type 0 → Type 0
Exec S A = S → Result Exn A × S

module _ {S A : Type 0} where
  unfoldable pub pure : A → Exec S A
  pure a s = (ok a, s)

  unfoldable pub raise : Exn → Exec S A
  raise e s = (err e, s)

  unfoldable pub lift : Result Exn A → Exec S A
  lift r s = (r, s)

  -- What a function finds in the state.
  unfoldable pub reads : (S → Result Exn A) → Exec S A
  reads f s = (f s, s)

unfoldable pub modify : {S : Type 0} → (S → S) → Exec S (Unit {0})
modify g s = (ok tt, g s)

module _ {S A B : Type 0} where
  abbrev pub resume : Result Exn A → (A → Exec S B) → Exec S B
  resume (ok a) f s = f a s
  resume (err e) f s = (err e, s)

  infixl 5 ◌>>=◌ ◌>>◌
  -- Opening this opens the other actions too.
  unfoldable pub ◌>>=◌ : Exec S A → (A → Exec S B) → Exec S B
  unfolding pure raise lift reads modify
  ◌>>=◌ m f s = resume (m s).0 f (m s).1

  abbrev pub ◌>>◌ : Exec S A → Exec S B → Exec S B
  m >> k = m >>= λ _. k

-- `for x in xs: results += f(x)`
unfoldable pub collect : {S A B : Type 0} → (A → Exec S (List B)) → List A → Exec S (List B)
unfolding ◌>>=◌
collect f [] = pure []
collect f (x ∷ xs) = let rest = collect f xs in do ys ← f x; zs ← rest; pure (ys ++ zs)

-- `m` keeps what `f` reads of the state, whether it returns or raises.
pub record Keeps {S A X : Type 0} (f : S → X) (m : Exec S A) : Type 0 where
  pub at : (s : S) → f (m s).1 ≡ f s

module _ {S X A : Type 0} {f : S → X} where
  pub Keeps-pure : (a : A) → Keeps f (pure a)
  unfolding pure
  Keeps-pure a = record { at = λ s. refl }

  pub Keeps-lift : (r : Result Exn A) → Keeps f (lift r)
  unfolding lift
  Keeps-lift r = record { at = λ s. refl }

  pub Keeps-reads : (r : S → Result Exn A) → Keeps f (reads r)
  unfolding reads
  Keeps-reads r = record { at = λ s. refl }

  pub Keeps-if : (b : Bool) (m n : Exec S A) → Keeps f m → Keeps f n → Keeps f (if b then m else n)
  Keeps-if true m n km kn = km
  Keeps-if false m n km kn = kn

pub Keeps-modify :
    {S X : Type 0} {f : S → X} (g : S → S) → ((s : S) → f (g s) ≡ f s) → Keeps f (modify g)
unfolding modify
Keeps-modify g h = record { at = h }

module _ {S X A B : Type 0} {f : S → X} where
  pub Keeps-bind :
      (m : Exec S A) (k : A → Exec S B) → Keeps f m → ((a : A) → Keeps f (k a)) → Keeps f (m >>= k)
  unfolding ◌>>=◌
  Keeps-bind m k km kk = record { at = λ s. resumed (m s).0 (m s).1 ∙ km.at s }
    where
      resumed : (r : Result Exn A) (s : S) → f (resume r k s).1 ≡ f s
      resumed (ok a) s = (kk a).at s
      resumed (err e) s = refl

pub ruleset keeps_rules = (Keeps-pure, Keeps-lift, Keeps-reads, Keeps-if, Keeps-bind)

-- `m` started in `s` returned `a` and left the state `t`.
abbrev pub Returns : {S A : Type 0} → Exec S A → S → A → S → Type 0
Returns m s a t = m s ≡ (ok a, t)

module _ {S A B : Type 0} where
  resume-Returns :
      (r : Result Exn A) (k : A → Exec S B) (u : S) {b : B} {t : S}
      → resume r k u ≡ (ok b, t)
      → (a : A) × (r ≡ ok a) × Returns (k a) u b t
  resume-Returns (ok a) k u e = (a, refl, e)
  resume-Returns (err x) k u e = cc

  -- The first part returned, and the second went on from there.
  pub >>=-Returns :
      (m : Exec S A) (k : A → Exec S B) (s : S) {b : B} {t : S}
      → Returns (m >>= k) s b t
      → (a : A) × (u : S) × Returns m s a u × Returns (k a) u b t
  unfolding ◌>>=◌
  >>=-Returns m k s e =
      let (a, ea, ek) = resume-Returns (m s).0 k (m s).1 e in
      (a, (m s).1, ap (λ r. (r, (m s).1)) ea, ek)

-- Whenever `m` started in `s` returns, `Q` holds of what it returned and left.
abbrev pub Leads : {S A : Type 0} → Exec S A → S → (A → S → Type 0) → Type 0
Leads m s Q = (a : _) (t : _) → Returns m s a t → Q a t

pub >>=-Leads :
    {S A B : Type 0} (m : Exec S A) (k : A → Exec S B) (s : S) {Q : B → S → Type 0}
    → ((a : A) (u : S) → Returns m s a u → Leads (k a) u Q)
    → Leads (m >>= k) s Q
>>=-Leads m k s h b t e = let (a, u, em, ek) = >>=-Returns m k s e in h a u em b t ek

module _ {S A : Type 0} where
  pub Keeps-Returns :
      {X : Type 0} (f : S → X) (m : Exec S A) (s : S) {a : A} {t : S}
      → Keeps f m
      → Returns m s a t
      → f t ≡ f s
  Keeps-Returns f m s k e = ap (λ x. f x.1) (sym e) ∙ k.at s

  pub lift-Returns : (r : Result Exn A) (s : S) {a : A} {t : S} → Returns (lift r) s a t → r ≡ ok a
  unfolding lift
  lift-Returns r s e = ap (λ x. x.0) e

  pub reads-Returns :
      (r : S → Result Exn A) (s : S) {a : A} {t : S}
      → Returns (reads r) s a t
      → (r s ≡ ok a) × (s ≡ t)
  unfolding reads
  reads-Returns r s e = (ap (λ x. x.0) e, ap (λ x. x.1) e)

  pub pure-Returns : (b : A) (s : S) {a : A} {t : S} → Returns (pure b) s a t → (b ≡ a) × (s ≡ t)
  unfolding pure
  pure-Returns b s e = (ok_injective (ap (λ x. x.0) e), ap (λ x. x.1) e)

  pub pure-Leads : (Q : A → S → Type 0) (a : A) (s : S) → Q a s → Leads (pure a) s Q
  pure-Leads Q a s q b t e =
      let (ea, es) = pure-Returns a s e in subst (λ x. Q x t) ea (subst (Q a) es q)
