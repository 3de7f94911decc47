-- ===== src/Prelude/Dots.antt =====
-- Texts of parts between dots: strings.Split(s, ".") and strings.Join(parts, ".").
use Prim.Native.Nat.{ℕ}
use Prim.Native.Char.{Char, code}
use Prim.Native.String.{String}
use Prim.Native.String.append.{nil, cons}
use mathlib.Core.Path.{◌≡◌, refl, ap, ◌∙◌}
use mathlib.Core.Bool.{Bool, true, not}
use mathlib.Core.List.{List, [], ◌∷◌, ◌++◌}
use text.Mathlib.TextLemmas.{append_assoc}
use native.Mathlib.Omega.{arith}
use secret_share.Prelude.Lists.{All}
use secret_share.Prelude.Tests.{if◌then◌else◌, eqb}
use secret_share.Prelude.Texts.{◌<>◌, all_chars}

abbrev pub is_dot : ℕ → Bool
is_dot c = eqb c b'.'

abbrev pub has_no_dot : String → Bool
has_no_dot s = all_chars (λ c. not (is_dot c)) s

-- A character in front of the first part.
abbrev pub in_front : Char → List String → List String
in_front c [] = String.◌∷◌ c "" ∷ []
in_front c (p ∷ ps) = String.◌∷◌ c p ∷ ps

abbrev pub split_dots : String → List String
split_dots String.[] = "" ∷ []
split_dots (String.◌∷◌ c s) =
    let rest = split_dots s in if is_dot (code c) then "" ∷ rest else in_front c rest

abbrev pub join_dots : List String → String
join_dots [] = ""
join_dots (p ∷ []) = p
join_dots (p ∷ q ∷ ps) = p <> ("." <> join_dots (q ∷ ps))

-- A part without dots is one part.
pub split-part : (s : String) → has_no_dot s ≡ true → split_dots s ≡ s ∷ []
split-part String.[] h = refl
split-part (String.◌∷◌ c s) h = ground (arith, split-part s)

abbrev dot : Char
dot = "."

split-dot : (t : String) → split_dots ("." <> t) ≡ "" ∷ split_dots t
split-dot t = ap split_dots (cons dot "" t ∙ ap (λ s. String.◌∷◌ dot s) (nil t))

-- The first part ends at the first dot.
pub split-join :
    (s t : String) → has_no_dot s ≡ true → split_dots (s <> ("." <> t)) ≡ s ∷ split_dots t
split-join String.[] t h = ap split_dots (nil ("." <> t)) ∙ split-dot t
split-join (String.◌∷◌ c s) t h =
    ap split_dots (cons c s ("." <> t)) ∙ ground (arith, split-join s t)

-- Parts without dots that are joined, in front of a last dot, are split again.
pub split-join_dots :
    (p : String) (ps : List String) (t : String)
    → has_no_dot p ≡ true
    → All (λ q. has_no_dot q ≡ true) ps
    → split_dots (join_dots (p ∷ ps) <> ("." <> t)) ≡ p ∷ (ps ++ split_dots t)
split-join_dots p [] t h hs = split-join p t h
split-join_dots p (q ∷ ps) t h (k, hs) =
    let rest = join_dots (q ∷ ps) in
    ap split_dots (
      append_assoc p ("." <> rest) ("." <> t) ∙ ap (λ s. p <> s) (append_assoc "." rest ("." <> t)))
    ∙ split-join p (rest <> ("." <> t)) h
    ∙ ap (λ l. p ∷ l) (split-join_dots q ps t k hs)
