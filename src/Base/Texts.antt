-- ===== src/Base/Texts.antt =====
-- Python's operations on texts.
use Prim.Native.Nat.{ℕ, zero, suc, ◌-◌}
use Prim.Native.Char.{code}
use Prim.Native.String.{String, count, ◌++◌ as ◌<>◌}
use mathlib.Core.Path.{◌≡◌, refl, ap, ◌∙◌}
use mathlib.Core.Bool.{Bool, true, false, ◌&&◌, ◌||◌}
use mathlib.Core.List.{List, [], ◌∷◌}
use native.Mathlib.Omega.{arith}
use text.Mathlib.TextLemmas.{nil-append, cons-append}
use lidenal85_blip.Base.Tests.{eqb}
use lidenal85_blip.Base.Equality.{if◌then◌else◌}

-- The texts one after the other.
unfoldable pub concat : List String → String
concat [] = ""
concat (s ∷ ss) = s <> concat ss

-- `separator.join(texts)`
unfoldable pub join : String → List String → String
join separator [] = ""
join separator (s ∷ []) = s
join separator (s ∷ ss) = s <> (separator <> join separator ss)

-- `text.startswith(start)`
unfoldable pub starts_with : String → String → Bool
starts_with text String.[] = true
starts_with String.[] (String.◌∷◌ d start) = false
starts_with (String.◌∷◌ c text) (String.◌∷◌ d start) =
    eqb (code c) (code d) && starts_with text start

-- the rest of the text, of which `n` characters are left to drop
remove_from : String → ℕ → String → String
remove_from marker n String.[] = ""
remove_from marker (suc n) (String.◌∷◌ c text) = remove_from marker n text
remove_from marker zero (String.◌∷◌ c text) =
    let shorter = remove_from marker (count marker - 1) text in
    let kept = String.◌∷◌ c (remove_from marker 0 text) in
    if starts_with (String.◌∷◌ c text) marker then shorter else kept

-- `text.replace(marker, "")`, of a marker that is not empty
unfoldable pub remove : String → String → String
unfolding remove_from starts_with
remove marker text = remove_from marker 0 text

-- The two texts differ at a place that both have.
unfoldable pub clashes : String → String → Bool
clashes String.[] other = false
clashes (String.◌∷◌ c text) String.[] = false
clashes (String.◌∷◌ c text) (String.◌∷◌ d other) =
    if eqb (code c) (code d) then clashes text other else true

pub starts_with-append_clashes :
    (text rest start : String)
    → clashes text start ≡ true
    → starts_with (text <> rest) start ≡ false
unfolding starts_with clashes
starts_with-append_clashes String.[] rest start h = cc
starts_with-append_clashes (String.◌∷◌ c text) rest String.[] h = cc
starts_with-append_clashes (String.◌∷◌ c text) rest (String.◌∷◌ d start) h =
    rw (cons-append c text rest) (ground (arith, starts_with-append_clashes text rest start))

pub starts_with-append :
    (text rest start : String)
    → starts_with text start ≡ true
    → starts_with (text <> rest) start ≡ true
unfolding starts_with
starts_with-append text rest String.[] h = refl
starts_with-append String.[] rest (String.◌∷◌ d start) h = cc
starts_with-append (String.◌∷◌ c text) rest (String.◌∷◌ d start) h =
    rw (cons-append c text rest) (ground (arith, starts_with-append text rest start))

fail_marker :
    (text : String)
    → "FAIL:" <> text
      ≡ String.◌∷◌ "F" (String.◌∷◌ "A" (String.◌∷◌ "I" (String.◌∷◌ "L" (String.◌∷◌ ":" text))))
fail_marker text =
    cons-append "F" "AIL:" text
    ∙ ap (String.◌∷◌ "F") (
        cons-append "A" "IL:" text
        ∙ ap (String.◌∷◌ "A") (
            cons-append "I" "L:" text
            ∙ ap (String.◌∷◌ "I") (
                cons-append "L" ":" text
                ∙ ap (String.◌∷◌ "L")
                    (cons-append ":" "" text ∙ ap (String.◌∷◌ ":") (nil-append text)))))

pub remove-fail_marker : (text : String) → remove "FAIL:" ("FAIL:" <> text) ≡ remove "FAIL:" text
unfolding remove
remove-fail_marker text = rw (fail_marker text) refl

-- `part in text`
unfoldable pub has_text : String → String → Bool
unfolding starts_with
has_text part String.[] = starts_with "" part
has_text part (String.◌∷◌ c text) = starts_with (String.◌∷◌ c text) part || has_text part text

pub has_text-append :
    (part before text : String) → has_text part text ≡ true → has_text part (before <> text) ≡ true
unfolding has_text
has_text-append part String.[] text h = rw (nil-append text) h
has_text-append part (String.◌∷◌ c before) text h =
    rw (cons-append c before text) (ground (arith, has_text-append part before text h))
