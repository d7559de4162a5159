-- ===== src/Common/Text.antt =====
-- What the program uses of Go's package strings, on texts of characters.
use Prim.Native.Char.{Char, code}
use Prim.Native.String.{String, len, slice, char_at}
use Prim.Native.String
use mathlib.Core.Bool.{Bool, ◌&&◌}
use mathlib.Core.List.{List, [], ◌∷◌}
use mathlib.Core.Path.{◌≡◌, refl, ap, ◌∙◌}
use mathlib.Core.Logic.{inl, inr}
use Prim.Native.Nat.{◌-◌}
use text.Mathlib.Text.{starts_with}
use text.Mathlib.TextLemmas.{cons-append, nil-append}
use text.Mathlib.TextEquality.{Char-path}
use task_flow_alisha_sharma.Common.Tests.{leb, eqb, eqb_iff, Bool-cases, if◌then◌else◌}

abbrev pub text_cons : Char → String → String
text_cons c s = String.◌∷◌ c s

infixr 66 ◌<>◌
abbrev pub ◌<>◌ : String → String → String
s <> t = String.◌++◌ s t

abbrev pub is_upper : Char → Bool
is_upper c = leb b'A' (code c) && leb (code c) b'Z'

-- unicode.ToLower on ASCII.
unfoldable pub lower : Char → Char
lower c = if is_upper c then char_at "abcdefghijklmnopqrstuvwxyz" (code c - b'A') else c

unfoldable pub to_lower : String → String
unfolding lower
to_lower String.[] = ""
to_lower (String.◌∷◌ c s) = text_cons (lower c) (to_lower s)

-- strings.TrimPrefix
abbrev pub trim_prefix : String → String → String
trim_prefix s p = if starts_with s p then slice s (len p) (len s) else s

abbrev push : Char → List String → List String
push c [] = text_cons c "" ∷ []
push c (w ∷ ws) = text_cons c w ∷ ws

-- strings.Split(s, ",")
unfoldable pub split : String → List String
split String.[] = "" ∷ []
split (String.◌∷◌ c s) = let rest = split s in if eqb (code c) b',' then "" ∷ rest else push c rest

-- strings.Join(ws, ",")
unfoldable pub join : List String → String
join [] = ""
join (w ∷ []) = w
join (w ∷ v ∷ ws) = w <> "," <> join (v ∷ ws)

push-some : (c : Char) (ws : List String) → (w : String) × (vs : List String) × (push c ws ≡ w ∷ vs)
push-some c [] = (text_cons c "", [], refl)
push-some c (w ∷ ws) = (text_cons c w, ws, refl)

-- A split has at least one part.
pub split-some : (s : String) → (w : String) × (ws : List String) × (split s ≡ w ∷ ws)
unfolding split
split-some String.[] = ("", [], refl)
split-some (String.◌∷◌ c s) = elim (Bool-cases (eqb (code c) b',')) [
  | inl comma ↦ ("", split s, rw comma refl)
  | inr other ↦
      let some_part = push-some c (split s) in (some_part.0, some_part.1, rw other some_part.2)
]

join-push : (c : Char) (ws : List String) → join (push c ws) ≡ text_cons c (join ws)
unfolding join
join-push c [] = refl
join-push c (w ∷ []) = refl
join-push c (w ∷ v ∷ ws) = cons-append c w ("," <> join (v ∷ ws))

join-empty : (w : String) (ws : List String) → join ("" ∷ w ∷ ws) ≡ text_cons "," (join (w ∷ ws))
unfolding join
join-empty w ws = nil-append _ ∙ (cons-append "," "" _ ∙ ap (text_cons ",") (nil-append _))

join-comma :
    (ws : List String) (w : String) (vs : List String)
    → ws ≡ w ∷ vs
    → join ("" ∷ ws) ≡ text_cons "," (join ws)
join-comma ws w vs e = rw e (join-empty w vs)

-- A text is the join of its parts.
pub join-split : (s : String) → join (split s) ≡ s
unfolding split
join-split String.[] = unfold join in refl
join-split (String.◌∷◌ c s) = elim (Bool-cases (eqb (code c) b',')) [
  | inl comma ↦
      let part = split-some s in
      let same : c ≡ "," = Char-path c "," ((eqb_iff (code c) b',').0 comma) in
      let first : join ("" ∷ split s) ≡ text_cons "," (join (split s)) =
        join-comma (split s) part.0 part.1 part.2 in
      rw comma (cc (first, same, join-split s))
  | inr other ↦ rw (other, join-push c (split s), join-split s) refl
]
