-- ===== src/Prelude/Text.antt =====
-- Texts as the sources use them: a field that is absent, null or "" is falsy.
use Prim.Native.Nat.{ℕ}
use Prim.Native.Char.{Char, code}
use Prim.Native.String.{String}
use mathlib.Core.Path.{◌≡◌, refl}
use mathlib.Core.Bool.{Bool, true, false, not, ◌&&◌, ◌||◌}
use mathlib.Core.Option.{Option, none, some}
use mathlib.Core.Logic.{◌↔◌, inl, inr}
use mathlib.Core.List.{List, [], ◌∷◌}
use native.Mathlib.Omega.{arith}
use text.Mathlib.Text.{◌==◌}
use text.Mathlib.TextEquality.{eq_iff}
use tpsr_v.Prelude.Tests.{if◌then◌else◌, Bool-cases, leb, ◌==◌ as nat_eq}

-- `===` on two texts
unfoldable pub text_eq : String → String → Bool
text_eq s t = s == t

-- `field === 'LITERAL'`, where the field may be absent
unfoldable pub is : Option String → String → Bool
is none t = false
is (some s) t = s == t

-- `!!field`
unfoldable pub truthy : Option String → Bool
truthy none = false
truthy (some s) = not (s == "")

-- `field || fallback`
unfoldable pub or_text : Option String → String → String
or_text none t = t
or_text (some s) t = if s == "" then t else s

-- `field || other` for two fields that may be absent
unfoldable pub or_else : Option String → Option String → Option String
unfolding truthy
or_else a b = if truthy a then a else b

-- `a === b` for two fields
unfoldable pub same_text : Option String → Option String → Bool
same_text none none = true
same_text none (some t) = false
same_text (some s) none = false
same_text (some s) (some t) = s == t

-- `list.includes(text)`
unfoldable pub includes : List String → String → Bool
includes [] t = false
includes (x ∷ xs) t = text_eq x t || includes xs t

pub text_eq_iff : (s t : String) → (text_eq s t ≡ true) ↔ (s ≡ t)
unfolding text_eq
text_eq_iff s t = eq_iff s t

pub is_iff : (o : Option String) (t : String) → (is o t ≡ true) ↔ (o ≡ some t)
unfolding is
is_iff none t = ground arith
is_iff (some s) t = ground (arith, eq_iff s t)

-- A text equals one of two literals at most.
pub apart : (x s t : String) → (s == t) ≡ false → text_eq x s ≡ true → text_eq x t ≡ false
unfolding text_eq
apart x s t ne h = ground (arith, eq_iff x s, eq_iff x t, eq_iff s t)

pub is_apart :
    (o : Option String) (s t : String) → (s == t) ≡ false → is o s ≡ true → is o t ≡ false
unfolding is
is_apart none s t ne h = refl
is_apart (some x) s t ne h = ground (arith, eq_iff x s, eq_iff x t, eq_iff s t)

-- A field that equals a literal other than "" is truthy.
pub truthy_of_is :
    (o : Option String) (t : String) → (t == "") ≡ false → is o t ≡ true → truthy o ≡ true
unfolding is truthy
truthy_of_is none t k h = cc
truthy_of_is (some s) t k h = ground (arith, eq_iff s t, eq_iff s "")

pub same_text_iff : (a b : Option String) → (same_text a b ≡ true) ↔ (a ≡ b)
unfolding same_text
same_text_iff none none = ground arith
same_text_iff none (some t) = ground arith
same_text_iff (some s) none = ground arith
same_text_iff (some s) (some t) = ground (arith, eq_iff s t)

-- The white space that `String.prototype.trim` removes, by code point.
is_space : ℕ → Bool
is_space c =
    (leb 9 c && leb c 13)
    || nat_eq c 32
    || nat_eq c 160
    || nat_eq c 5760
    || (leb 8192 c && leb c 8202)
    || nat_eq c 8232
    || nat_eq c 8233
    || nat_eq c 8239
    || nat_eq c 8287
    || nat_eq c 12288
    || nat_eq c 65279

trim_start : String → String
unfolding is_space
trim_start String.[] = String.[]
trim_start (String.◌∷◌ c s) =
    let rest = trim_start s in if is_space (code c) then rest else String.◌∷◌ c s

trim_end : String → String
unfolding is_space
trim_end String.[] = String.[]
trim_end (String.◌∷◌ c s) =
    let rest = trim_end s in
    if is_space (code c) && rest == "" then String.[] else String.◌∷◌ c rest

-- `String.prototype.trim`
unfoldable pub trim : String → String
unfolding trim_start trim_end
trim s = trim_end (trim_start s)

trim_end_twice : (s : String) → trim_end (trim_end s) ≡ trim_end s
unfolding trim_end
trim_end_twice String.[] = refl
trim_end_twice (String.◌∷◌ c s) = elim (Bool-cases (is_space (code c) && trim_end s == "")) [
  | inl y ↦ rw y refl
  | inr n ↦ rw (n, trim_end_twice s, n) refl
]

trim_start_kept :
    (c : Char) (s : String)
    → is_space (code c) ≡ false
    → trim_start (String.◌∷◌ c s) ≡ String.◌∷◌ c s
unfolding trim_start
trim_start_kept c s n = rw n refl

trim_end_kept :
    (c : Char) (s : String)
    → is_space (code c) ≡ false
    → trim_end (String.◌∷◌ c s) ≡ String.◌∷◌ c (trim_end s)
unfolding trim_end
trim_end_kept c s n = rw n refl

trim_start_space :
    (c : Char) (s : String) → is_space (code c) ≡ true → trim_start (String.◌∷◌ c s) ≡ trim_start s
unfolding trim_start
trim_start_space c s y = rw y refl

trim_nothing : trim_start (trim_end (trim_start "")) ≡ trim_end (trim_start "")
unfolding trim_start trim_end
trim_nothing = refl

trim_start_trimmed : (s : String) → trim_start (trim_end (trim_start s)) ≡ trim_end (trim_start s)
trim_start_trimmed String.[] = trim_nothing
trim_start_trimmed (String.◌∷◌ c s) = elim (Bool-cases (is_space (code c))) [
  | inl y ↦ rw (trim_start_space c s y) (trim_start_trimmed s)
  | inr n ↦ rw (trim_start_kept c s n, trim_end_kept c s n, trim_start_kept c (trim_end s) n) refl
]

-- Trimming twice is trimming once.
pub trim_twice : (s : String) → trim (trim s) ≡ trim s
unfolding trim
trim_twice s = rw (trim_start_trimmed s) (trim_end_twice (trim_start s))

trim_test : trim " sbom 1\n" ≡ "sbom 1"
unfolding trim
trim_test = refl

upper_from : String → String → Char → Char
upper_from (String.◌∷◌ low lows) (String.◌∷◌ up ups) c =
    let rest = upper_from lows ups c in if nat_eq (code low) (code c) then up else rest
upper_from _ _ c = c

upper_chars : String → String
unfolding upper_from
upper_chars String.[] = String.[]
upper_chars (String.◌∷◌ c s) =
    String.◌∷◌ (upper_from "abcdefghijklmnopqrstuvwxyz" "ABCDEFGHIJKLMNOPQRSTUVWXYZ" c)
      (upper_chars s)

-- `String.prototype.toUpperCase` on the ASCII letters; other characters stay as they are.
unfoldable pub to_upper_case : String → String
unfolding upper_chars
to_upper_case s = upper_chars s

to_upper_case_test : to_upper_case "not_Affected-1" ≡ "NOT_AFFECTED-1"
unfolding to_upper_case
to_upper_case_test = refl
