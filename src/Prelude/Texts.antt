-- ===== src/Prelude/Texts.antt =====
-- Texts as lists of code units, their equality and their search.
use Prim.Native.Nat.{ℕ, ◌<◌}
use mathlib.Core.Path.{◌≡◌, refl, sym, ap, subst}
use mathlib.Core.Bool.{Bool, true, false, ◌&&◌, ◌||◌}
use mathlib.Core.List.{List, [], ◌∷◌, ◌++◌}
use mathlib.Core.Logic.{◌≢◌}
use native.Mathlib.Omega.{arith}
use microservices_running.Prelude.Tests.{◌==◌}
use microservices_running.Prelude.Lists.{length, All}

abbrev pub Text : Type 0
Text = List ℕ

unfoldable pub same_text : Text → Text → Bool
same_text [] [] = true
same_text [] (b ∷ ys) = false
same_text (a ∷ xs) [] = false
same_text (a ∷ xs) (b ∷ ys) = a == b && same_text xs ys

pub same_text_sound : (a b : Text) → same_text a b ≡ true → a ≡ b
unfolding same_text
same_text_sound [] [] same = refl
same_text_sound [] (b ∷ ys) same = ground (arith, same)
same_text_sound (a ∷ xs) [] same = ground (arith, same)
same_text_sound (a ∷ xs) (b ∷ ys) same = ground (arith, same_text_sound xs ys, same)

pub same_text_self : (a : Text) → same_text a a ≡ true
unfolding same_text
same_text_self [] = refl
same_text_self (a ∷ xs) = ground (arith, same_text_self xs)

-- `text.startsWith(prefix)`
unfoldable pub is_prefix : Text → Text → Bool
is_prefix [] text = true
is_prefix (a ∷ xs) [] = false
is_prefix (a ∷ xs) (b ∷ ys) = a == b && is_prefix xs ys

-- `text.includes(part)`
unfoldable pub includes : (part text : Text) → Bool
includes part [] = is_prefix part []
includes part (c ∷ cs) = is_prefix part (c ∷ cs) || includes part cs

-- Two texts of one length that stand first in the same text.
pub append-injective :
    (xs ys r s : Text) → length xs ≡ length ys → xs ++ r ≡ ys ++ s → (xs ≡ ys) × (r ≡ s)
append-injective [] [] r s same eq = (refl, eq)
append-injective [] (y ∷ ys) r s same eq = absurd (omega (arith, same))
append-injective (x ∷ xs) [] r s same eq = absurd (omega (arith, same))
append-injective (x ∷ xs) (y ∷ ys) r s same eq =
    ground (arith, append-injective xs ys r s, same, eq)

-- What stands before the first mark, if no code before it is the mark.
pub split-injective :
    (mark : ℕ) (xs ys r s : Text)
    → All (λ c. (c < mark)) xs
    → All (λ c. (c < mark)) ys
    → xs ++ mark ∷ r ≡ ys ++ mark ∷ s
    → (xs ≡ ys) × (r ≡ s)
split-injective mark [] [] r s small small' eq = ground (arith, eq)
split-injective mark [] (y ∷ ys) r s small small' eq = ground (arith, eq, small')
split-injective mark (x ∷ xs) [] r s small small' eq = ground (arith, eq, small)
split-injective mark (x ∷ xs) (y ∷ ys) r s small small' eq =
    ground (arith, split-injective mark xs ys r s small.1 small'.1, eq)

-- A text without a mark, and what stands before the first mark of a text.
abbrev pub Lacks : (mark : ℕ) → Text → Type 0
Lacks mark = All (λ c. (c ≢ mark))

pub split-Lacks :
    (mark : ℕ) (xs ys r s : Text)
    → Lacks mark xs
    → Lacks mark ys
    → (xs ++ mark ∷ []) ++ r ≡ (ys ++ mark ∷ []) ++ s
    → xs ≡ ys
split-Lacks mark [] [] r s none_x none_y eq = refl
split-Lacks mark [] (y ∷ ys) r s none_x none_y eq = ground (arith, eq, none_y.0)
split-Lacks mark (x ∷ xs) [] r s none_x none_y eq = ground (arith, eq, none_x.0)
split-Lacks mark (x ∷ xs) (y ∷ ys) r s none_x none_y eq =
    ground (arith, split-Lacks mark xs ys r s none_x.1 none_y.1, eq)

-- A text that has a part in it.
abbrev pub Contains : (part text : Text) → Type 0
Contains part text = (before : Text) × (after : Text) × (text ≡ before ++ (part ++ after))

is_prefix_sound :
    (part text : Text) → is_prefix part text ≡ true → (after : Text) × (text ≡ part ++ after)
unfolding is_prefix
is_prefix_sound [] text starts = (text, refl)
is_prefix_sound (a ∷ xs) [] starts = ground (arith, starts)
is_prefix_sound (a ∷ xs) (b ∷ ys) starts =
    let (after, same) = is_prefix_sound xs ys (ground (arith, starts)) in
    (after, ground (arith, starts, same))

is_prefix_append : (part after : Text) → is_prefix part (part ++ after) ≡ true
unfolding is_prefix
is_prefix_append [] after = refl
is_prefix_append (a ∷ xs) after = ground (arith, is_prefix_append xs after)

pub includes_sound : (part text : Text) → includes part text ≡ true → Contains part text
unfolding includes
includes_sound part [] has = let (after, same) = is_prefix_sound part [] has in ([], after, same)
includes_sound part (c ∷ cs) has =
    either (is_prefix part (c ∷ cs)) refl has (includes_sound part cs)
  where
    later : Contains part cs → Contains part (c ∷ cs)
    later (before, after, same) = (c ∷ before, after, ap (λ t. c ∷ t) same)

    either :
        (b : Bool)
        → is_prefix part (c ∷ cs) ≡ b
        → (b || includes part cs) ≡ true
        → (includes part cs ≡ true → Contains part cs)
        → Contains part (c ∷ cs)
    either true starts has deeper =
        let (after, same) = is_prefix_sound part (c ∷ cs) starts in ([], after, same)
    either false starts has deeper = later (deeper has)

includes_append : (part before after : Text) → includes part (before ++ (part ++ after)) ≡ true
unfolding includes
includes_append part [] after = starts part after (part ++ after) (is_prefix_append part after)
  where
    starts : (part after text : Text) → is_prefix part text ≡ true → includes part text ≡ true
    starts part after [] has = has
    starts part after (c ∷ cs) has = ground (arith, has)
includes_append part (c ∷ cs) after = ground (arith, includes_append part cs after)

pub includes_complete : (part text : Text) → Contains part text → includes part text ≡ true
includes_complete part text (before, after, same) =
    subst (λ t. includes part t ≡ true) (sym same) (includes_append part before after)
