-- ===== src/Base/Prefix.antt =====
-- strings.CutPrefix: what is left is what a text goes on with.
use Prim.Native.Char.{code}
use Prim.Native.String.{String, [], ◌∷◌}
use mathlib.Core.Option.{some}
use mathlib.Core.Path.{◌≡◌, ap}
use native.Mathlib.Omega.{arith}
use text.Mathlib.TextEquality.{Char-path}
use text.Mathlib.TextLemmas.{nil-append, cons-append}
use mathlib.Core.Logic.{inl, inr}
use opencode_proxy_api.Base.Tests.{eqb, Bool-cases}
use opencode_proxy_api.Base.Text.{cut_prefix, append}

pub cut_prefix-append : (p t : String) → cut_prefix p (append p t) ≡ some t
unfolding cut_prefix
cut_prefix-append [] t = ap some (nil-append t)
cut_prefix-append (c ∷ p) t = rw (cons-append c p t) (ground (arith, cut_prefix-append p t))

pub append-cut_prefix : (p s t : String) → cut_prefix p s ≡ some t → s ≡ append p t
unfolding cut_prefix
append-cut_prefix [] s t e = rw (nil-append t) (cc e)
append-cut_prefix (c ∷ p) [] t e = absurd (cc e)
append-cut_prefix (c ∷ p) (d ∷ s) t e = elim (Bool-cases (eqb (code c) (code d))) [
  | inr other ↦ absurd (cc (rw other at e))
  | inl same ↦
      let rest : s ≡ append p t = append-cut_prefix p s t (rw same at e) in
      let chars : c ≡ d = Char-path c d (ground (arith, same)) in
      rw (cons-append c p t) (cc (rest, chars))
]
