-- ===== src/Peer/Actions.antt =====
-- The methods of server/src/rtp_server/client_rtp.rs that call the webrtc crate: each may change the
-- client, and returns or fails with an error, by `?`. An error is its text, and undoes nothing.
use simple_screen_share.Base.{String, ◌≡◌, ◌≢◌, refl, sym, ap, ◌∙◌, inl, inr, arith}
use simple_screen_share.Base.Result.{Result, ok, err, Result-cases}

abbrev pub Action : Type 0 → Type 0 → Type 0
Action S A = S → S × Result A String

module _ {S : Type 0} where
  abbrev pub pure : {A : Type 0} → A → Action S A
  pure a s = (s, ok a)

  infixl 5 ◌>>=◌ ◌>>◌
  abbrev pub ◌>>=◌ : {A B : Type 0} → Action S A → (A → Action S B) → Action S B
  ◌>>=◌ m f s = let (s', r) = m s in elim r [ ok a ↦ f a s' | err e ↦ (s', err e) ]

  abbrev pub ◌>>◌ : {B : Type 0} → Action S (Unit {0}) → Action S B → Action S B
  m >> k = m >>= λ _. k

pub with_result :
    {S A : Type 0} (x : S × Result A String) {r : Result A String} → x.1 ≡ r → x ≡ (x.0, r)
with_result x e = ap (λ r. (x.0, r)) e

module _ {S A B : Type 0} (m : Action S A) (f : A → Action S B) (s : S) where
  pub bind-returned : {a : A} → (m s).1 ≡ ok a → (m >>= f) s ≡ f a (m s).0
  bind-returned e = rw (e, ◌>>=◌) refl

  pub bind-failed : {error : String} → (m s).1 ≡ err error → (m >>= f) s ≡ ((m s).0, err error)
  bind-failed e = rw (e, ◌>>=◌) refl

pub ok-injective : {A : Type 0} {a b : A} → ◌≡◌ {A = Result A String} (ok a) (ok b) → a ≡ b
ok-injective e = ground arith

ok-err : {A : Type 0} {a : A} {error : String} → ok a ≢ err error
ok-err e = ground arith

-- What a chain that returns went through.
pub bind-ok :
    {S A B : Type 0} (m : Action S A) (f : A → Action S B) (s : S) {t : S} {b : B}
    → (m >>= f) s ≡ (t, ok b)
    → (between : S) × (a : A) × (m s ≡ (between, ok a)) × (f a between ≡ (t, ok b))
bind-ok m f s e = elim (Result-cases (m s).1) [
  | inl (a, returned) ↦
      ((m s).0, a, with_result (m s) returned, sym (bind-returned m f s returned) ∙ e)
  | inr (error, failed) ↦ absurd (ok-err (ap (λ x. x.1) (sym e ∙ bind-failed m f s failed)))
]
