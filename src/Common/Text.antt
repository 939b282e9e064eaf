-- ===== src/Common/Text.antt =====
-- Text built as a template literal is: pieces put one after another.
use Prim.Native.String
use Prim.Native.String.{String}
use Prim.Native.String.append
use mathlib.Core.Path.{◌≡◌, ap, ◌∙◌}
use mathlib.Core.List.{List, [], ◌∷◌}

abbrev pub template : List String → String
template [] = ""
template (s ∷ r) = String.◌++◌ s (template r)

-- `xs.join(separator)`
unfoldable pub join : String → List String → String
join separator [] = ""
join separator (s ∷ []) = s
join separator (s ∷ t ∷ r) = template (s ∷ separator ∷ join separator (t ∷ r) ∷ [])

-- Nothing put after a text leaves it as it is.
pub append_nothing : (s : String) → String.◌++◌ s "" ≡ s
append_nothing String.[] = append.nil ""
append_nothing (String.◌∷◌ c s) = append.cons c s "" ∙ ap (λ r. String.◌∷◌ c r) (append_nothing s)
