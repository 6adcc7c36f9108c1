-- ===== src/Base/Keeps.antt =====
-- Rules for actions: what every way to end keeps, and what a success says of the parts.
use go_grpc_http.Base.Tests.{if◌then◌else◌}
use mathlib.Core.Path.{◌≡◌}
use mathlib.Core.Logic.{◌⊎◌, inl, inr}
use mathlib.Core.Bool.{Bool, true, false}
use Prim.Native.Nat.{ℕ, ◌+◌}
use Prim.Native.String.{String}
use native.Mathlib.Omega.{arith}
use go_grpc_http.Base.Action.{
  Result, ok, err, Result-cases, Outcome, done, refused, lost, Env, World, Action, pure, fail, lift,
  draw, continue, ◌>>=◌, handle, wrapping, call, finish,
}

-- `m` keeps a property of the state, whether it succeeds or not.
pub record Keeps {E S A : Type 0} (Q : S → Type 0) (m : Action E S A) : Type 0 where
  pub at : (w : World S) → Q w.state → Q (m w).1.state

module _ {E S A B : Type 0} {Q : S → Type 0} where
  continue-keeps :
      (r : Result E A) (f : A → Action E S B) (w : World S)
      → Q w.state
      → ((a : A) → Keeps Q (f a))
      → Q (continue r f w).1.state
  continue-keeps (ok a) f w h k = (k a).at w h
  continue-keeps (err e) f w h k = h

  pub Keeps-bind :
      (m : Action E S A) (f : A → Action E S B)
      → Keeps Q m
      → ((a : A) → Keeps Q (f a))
      → Keeps Q (m >>= f)
  Keeps-bind m f km kf = record { at = λ w h. continue-keeps (m w).0 f (m w).1 (km.at w h) kf }

module _ {E F S A B : Type 0} {Q : S → Type 0} where
  pub Keeps-handle :
      (m : Action E S A) (f : Result E A → Action F S B)
      → Keeps Q m
      → ((r : Result E A) → Keeps Q (f r))
      → Keeps Q (handle m f)
  Keeps-handle m f km kf = record { at = λ w h. (kf (m w).0).at (m w).1 (km.at w h) }

module _ {E S A : Type 0} {Q : S → Type 0} where
  pub Keeps-pure : (a : A) → Keeps Q (pure {E = E} a)
  Keeps-pure a = record { at = λ w h. h }

  pub Keeps-fail : (e : E) → Keeps Q (fail {A = A} e)
  Keeps-fail e = record { at = λ w h. h }

  pub Keeps-lift : (r : Result E A) → Keeps Q (lift r)
  Keeps-lift r = record { at = λ w h. h }

  pub Keeps-draw : (f : ℕ → A) → Keeps Q (draw {E = E} f)
  Keeps-draw f = record { at = λ w h. h }

  pub Keeps-if :
      (b : Bool) (m n : Action E S A) → Keeps Q m → Keeps Q n → Keeps Q (if b then m else n)
  Keeps-if true m n km kn = km
  Keeps-if false m n km kn = kn

module _ {S A : Type 0} (Q : S → Type 0) where
  finish-keeps :
      (o : Outcome) (f : S → Result String A × S) (w : World S)
      → Q w.state
      → Q (f w.state).1
      → Q (finish o f w).1.state
  finish-keeps done f w h k = k
  finish-keeps (refused e) f w h k = h
  finish-keeps (lost e) f w h k = k

module _ {S A : Type 0} {Q : S → Type 0} where
  pub Keeps-wrapping :
      (context : String) (m : Action String S A) → Keeps Q m → Keeps Q (wrapping context m)
  Keeps-wrapping context m k = record { at = λ w h. k.at w h }

  pub Keeps-call :
      (env : Env) (f : S → Result String A × S) → ((s : S) → Q s → Q (f s).1) → Keeps Q (call env f)
  unfolding call
  Keeps-call env f k = record {
    at = λ w h.
        finish-keeps Q (env.outcome w.calls) f (record w { calls = w.calls + 1 }) h (k w.state h);
  }

pub ruleset keeps_rules = (
  Keeps-bind, Keeps-handle, Keeps-pure, Keeps-fail, Keeps-lift, Keeps-draw, Keeps-if,
  Keeps-wrapping,
)

module _ {E S A B : Type 0} where
  -- A successful bind: its first part succeeded, and the rest ran from the state that it left.
  pub bind-ok :
      (m : Action E S A) (f : A → Action E S B) (w : World S) {b : B}
      → ((m >>= f) w).0 ≡ ok b
      → (a : A) × ((m w).0 ≡ ok a) × ((m >>= f) w ≡ f a (m w).1)
  bind-ok m f w h = elim (Result-cases (m w).0) [
    | inl (a, e) ↦ (a, e, rw e)
    | inr (m', e) ↦ absurd (ground (arith, e))
  ]

  -- How a bind ends: by the error of its first part, or as the rest does.
  pub bind-cases :
      (m : Action E S A) (f : A → Action E S B) (w : World S)
      → ((e : E) × ((m >>= f) w ≡ (err e, (m w).1)))
        ⊎ ((a : A) × ((m w).0 ≡ ok a) × ((m >>= f) w ≡ f a (m w).1))
  bind-cases m f w = elim (Result-cases (m w).0) [
    | inl (a, e) ↦ inr (a, e, rw e)
    | inr (m', e) ↦ inl (m', rw e)
  ]

module _ {S A : Type 0} where
  pub wrapping-ok :
      (context : String) (m : Action String S A) (w : World S) {a : A}
      → (wrapping context m w).0 ≡ ok a
      → (m w).0 ≡ ok a
  wrapping-ok context m w h = ground arith

  pub call-ok :
      (env : Env) (f : S → Result String A × S) (w : World S) {a : A}
      → (call env f w).0 ≡ ok a
      → ((f w.state).0 ≡ ok a) × ((call env f w).1.state ≡ (f w.state).1)
  unfolding call
  call-ok env f w h = ground arith
