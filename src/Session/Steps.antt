-- ===== src/Session/Steps.antt =====
-- How a tool's program goes on after a step: inversion of `>>=`.
use mcp_dap_server_k8s_forwa.Prelude.{String, ◌≡◌, refl, ap, ◌⊎◌, inl, inr}
use mcp_dap_server_k8s_forwa.Session.{
  wrap_error, wrapped, Session, Error, Result, ok, err, Result-cases, Tool, ◌>>=◌,
}

pub err≢ok {ℓ κ} :
    {A : Type ℓ} {P : Type κ} {a : A} (e : Error) (r : Result A) → r ≡ err e → r ≡ ok a → P
err≢ok e r h k = absurd (cc (h, k))

module _ {ℓ κ} {A : Type ℓ} {B : Type κ} (m : Tool A) (f : A → Tool B) (s : Session) where
  pub bind-ok : (a : A) → (m s).0 ≡ ok a → (m >>= f) s ≡ f a (m s).1
  bind-ok a h = rw h

  pub bind-err : (e : Error) → (m s).0 ≡ err e → (m >>= f) s ≡ (err e, (m s).1)
  bind-err e h = rw h

  -- A program that succeeds has taken the step.
  pub bind-inv :
      (b : B) → ((m >>= f) s).0 ≡ ok b → (a : A) × ((m s).0 ≡ ok a) × ((m >>= f) s ≡ f a (m s).1)
  bind-inv b h = elim (Result-cases (m s).0) [
    | inl (a, e) ↦ (a, e, bind-ok a e)
    | inr (x, e) ↦ err≢ok x ((m >>= f) s).0 (ap (λ t. t.0) (bind-err x e)) h
  ]

  -- What holds of the state after the step, and is kept by the rest, holds at the end.
  pub bind-state {μ} :
      (P : Session → Type μ)
      → P (m s).1
      → ((a : A) → (m s).0 ≡ ok a → P (f a (m s).1).1)
      → P ((m >>= f) s).1
  bind-state P h k = elim (Result-cases (m s).0) [
    | inl (a, e) ↦ rw (bind-ok a e) (k a e)
    | inr (x, e) ↦ rw (bind-err x e) h
  ]

  -- A program that fails has failed at the step or behind it.
  pub bind-fails :
      (e : Error)
      → ((m >>= f) s).0 ≡ err e
      → (((m >>= f) s).1 ≡ (m s).1) ⊎ ((a : A) × ((m s).0 ≡ ok a) × ((m >>= f) s ≡ f a (m s).1))
  bind-fails e h = elim (Result-cases (m s).0) [
    | inl (a, u) ↦ inr (a, u, bind-ok a u)
    | inr (x, u) ↦ inl (ap (λ t. t.1) (bind-err x u))
  ]

-- Wrapping an error keeps a success.
pub wrap_error-inv {ℓ} :
    {A : Type ℓ} (m : String) (r : Result A) (a : A) → wrap_error m r ≡ ok a → r ≡ ok a
wrap_error-inv m (ok b) a h = h
wrap_error-inv m (err e) a h = err≢ok (wrapped m e) (wrap_error m (err e)) refl h
