-- ===== src/Base/Text.antt =====
-- Texts: Go's `+` on strings, and `Contains`, `HasPrefix` and `TrimPrefix` of package strings.
use Prim.Native.Nat.{ℕ, zero, suc, ◌+◌, ◌/◌, ◌%◌}
use Prim.Native.String
use Prim.Native.String.{String, [], ◌∷◌, len, slice, count}
use Prim.Native.Char.{Char}
use mathlib.Core.Path.{◌≡◌, refl, ap, sym, ◌∙◌}
use mathlib.Core.Logic.{inl, inr}
use mathlib.Core.Bool.{Bool, true, false, ◌||◌}
use native.Mathlib.Omega.{arith}
pub use text.Mathlib.Text.{◌==◌}
use text.Mathlib.Text.{starts_with}
use text.Mathlib.TextEquality.{starts_with_iff}
use text.Mathlib.TextLemmas.{nil-append, cons-append, append_assoc}
use text.Mathlib.TextPositions.{starts_with-append, slice-append_right, len-append}
use go_grpc_http.Base.Tests.{if◌then◌else◌, leb, ltb, Bool-cases}

infixr 65 ◌⧺◌
abbrev pub ◌⧺◌ : String → String → String
s ⧺ t = String.◌++◌ s t

-- strings.Contains(s, sub)
unfoldable pub contains : String → String → Bool
contains [] sub = starts_with [] sub
contains (c ∷ s) sub = starts_with (c ∷ s) sub || contains s sub

-- strings.HasPrefix(s, prefix)
abbrev pub has_prefix : String → String → Bool
has_prefix s prefix = starts_with s prefix

-- strings.TrimPrefix(s, prefix)
unfoldable pub trim_prefix : String → String → String
trim_prefix s prefix = if starts_with s prefix then slice s (len prefix) (len s) else s

-- At most so many characters: what a VARCHAR(n) column holds.
abbrev pub fits : ℕ → String → Bool
fits n s = leb (count s) n

pub contains-append_left : (s t sub : String) → contains t sub ≡ true → contains (s ⧺ t) sub ≡ true
unfolding contains
contains-append_left [] t sub h = rw nil-append h
contains-append_left (c ∷ s) t sub h =
    rw cons-append (ground (arith, contains-append_left s t sub h))

starts_with-append_right :
    (s t sub : String) → starts_with s sub ≡ true → starts_with (s ⧺ t) sub ≡ true
starts_with-append_right s t sub h =
    let (u, e) = (starts_with_iff s sub).0 h in
    (starts_with_iff (s ⧺ t) sub).1 (u ⧺ t, sym (append_assoc sub u t) ∙ ap (λ x. x ⧺ t) e)

contains_of_starts_with : (s sub : String) → starts_with s sub ≡ true → contains s sub ≡ true
unfolding contains
contains_of_starts_with [] sub h = h
contains_of_starts_with (c ∷ s) sub h = rw h

contains_of_tail : (c : Char) (s sub : String) → contains s sub ≡ true → contains (c ∷ s) sub ≡ true
unfolding contains
contains_of_tail c s sub h = ground arith

pub contains-append_right : (s t sub : String) → contains s sub ≡ true → contains (s ⧺ t) sub ≡ true
unfolding contains
contains-append_right [] t sub h =
    rw nil-append
      (contains_of_starts_with t sub (rw nil-append at (starts_with-append_right [] t sub h)))
contains-append_right (c ∷ s) t sub h = elim (Bool-cases (starts_with (c ∷ s) sub)) [
  | inl here ↦
      contains_of_starts_with ((c ∷ s) ⧺ t) sub (starts_with-append_right (c ∷ s) t sub here)
  | inr later ↦
      let split : (starts_with (c ∷ s) sub || contains s sub) ≡ true = h in
      rw cons-append
        (contains_of_tail c (s ⧺ t) sub (contains-append_right s t sub (rw later at split)))
]

-- A prefix that is put in front is taken off again.
pub trim_prefix-append : (p s : String) → trim_prefix (p ⧺ s) p ≡ s
unfolding trim_prefix
trim_prefix-append p s = rw starts_with-append (rw len-append (slice-append_right p s))

contains_tests :
    (contains "order not found" "not found" ≡ true)
    × (contains "order" "not found" ≡ false)
    × (contains "" "" ≡ true)
unfolding contains
contains_tests = (refl, refl, refl)

digit : ℕ → String
digit d = slice "0123456789" d (d + 1)

decimal_fuel : ℕ → ℕ → String
decimal_fuel zero n = ""
decimal_fuel (suc fuel) n =
    let rest = decimal_fuel fuel (n / 10) in if ltb n 10 then digit n else rest ⧺ digit (n % 10)

-- fmt's %d of a natural number; `n + 1` rounds are enough, since each divides by ten
unfoldable pub decimal : ℕ → String
unfolding decimal_fuel digit
decimal n = decimal_fuel (n + 1) n

decimal_tests : (decimal 0 ≡ "0") × (decimal 7 ≡ "7") × (decimal 4120 ≡ "4120")
unfolding decimal
decimal_tests = (refl, refl, refl)
