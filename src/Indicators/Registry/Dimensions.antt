-- ===== src/Indicators/Registry/Dimensions.antt =====
-- When the codes for an indicator's dimensions are accepted (indicators/registry.ts:
-- `resolveDimensions`).
use federal_mcps.Common.{
  ◌≡◌, ◌⊎◌, refl, ◌∙◌, String, true, false, Option, none, some, List, [], ◌∷◌, find-true, arith,
  eq_iff, if-cases, inl, inr, All,
}
use federal_mcps.Common.Members.{Member}
use federal_mcps.Common.Checked.{Checked, valid, invalid}
use federal_mcps.Common.Dict.{lookup, insert, lookup-insert}
use federal_mcps.Common.Sets.{has, are_distinct}
use federal_mcps.Indicators.Registry.{
  DimensionDefinition, DimensionSelection, dimension_arguments, arguments_of, is_given, undeclared,
  is_accepted, value_for, unless_undeclared, select, resolve_dimensions,
}

module _ (args : DimensionSelection) where
  -- The selection has the caller's code for a dimension, or its default, and the code is accepted.
  abbrev pub IsSelected : DimensionSelection → DimensionDefinition → Type 0
  IsSelected selection d =
      (lookup d.argument selection ≡ some (value_for args d))
      × (is_accepted d (value_for args d) ≡ true)

  -- A dimension whose code is not accepted.
  abbrev pub IsRejected : List DimensionDefinition → Type 0
  IsRejected declared =
      (d : DimensionDefinition) × Member d declared × (is_accepted d (value_for args d) ≡ false)

  abbrev Selects :
      List DimensionDefinition → DimensionSelection → Checked DimensionSelection → Type 0
  Selects declared before (valid selection) =
      All (IsSelected selection) declared
      × ((k : String)
          → has k (arguments_of declared) ≡ false
          → lookup k selection ≡ lookup k before)
  Selects declared before (invalid message) = IsRejected declared

  extend :
      (d : DimensionDefinition) (declared : List DimensionDefinition) (before : DimensionSelection)
      (r : Checked DimensionSelection)
      → has d.argument (arguments_of declared) ≡ false
      → is_accepted d (value_for args d) ≡ true
      → Selects declared (insert d.argument (value_for args d) before) r
      → Selects (d ∷ declared) before r
  unfolding has
  extend d declared before (invalid message) fresh accepted (e, m, h) = (e, inr m, h)
  extend d declared before (valid selection) fresh accepted (h, kept) = (
    (
      (
        kept d.argument fresh
            ∙ ground (
              arith,
              lookup-insert d.argument d.argument (value_for args d) before,
              eq_iff d.argument d.argument,
            ),
        accepted,
      ),
      h,
    ),
    λ k other.
        kept k (ground arith)
        ∙ ground (arith, lookup-insert d.argument k (value_for args d) before),
  )

  select-Selects :
      (name : String) (declared : List DimensionDefinition) (before : DimensionSelection)
      → are_distinct (arguments_of declared) ≡ true
      → Selects declared before (select name args declared before)
  unfolding select are_distinct
  select-Selects name [] before distinct = (tt, λ k other. refl)
  select-Selects name (d ∷ declared) before distinct =
      if-cases (Selects (d ∷ declared) before) (is_accepted d (value_for args d))
        (λ accepted. extend d declared before _ (ground arith) accepted (
          select-Selects name declared (insert d.argument (value_for args d) before)
            (ground arith)))
        (λ rejected. (d, inl refl, rejected))

  -- How the arguments of a call end: every declared dimension has an accepted code, the caller's or
  -- the default, and no other argument was given; or there is what they are refused for.
  abbrev pub IsResolved : List DimensionDefinition → Checked DimensionSelection → Type 0
  IsResolved declared (valid selection) =
      All (IsSelected selection) declared × (undeclared args declared dimension_arguments ≡ none)
  IsResolved declared (invalid message) =
      ((argument : String) × (is_given args argument ≡ true)
        × (has argument (arguments_of declared) ≡ false))
      ⊎ IsRejected declared

  selected-IsResolved :
      (declared : List DimensionDefinition) (r : Checked DimensionSelection)
      → undeclared args declared dimension_arguments ≡ none
      → Selects declared [] r
      → IsResolved declared r
  selected-IsResolved declared (valid selection) none_left (h, kept) = (h, none_left)
  selected-IsResolved declared (invalid message) none_left h = inr h

  unless-IsResolved :
      (name : String) (declared : List DimensionDefinition) (found : Option String)
      → undeclared args declared dimension_arguments ≡ found
      → are_distinct (arguments_of declared) ≡ true
      → IsResolved declared (unless_undeclared name declared args found)
  unfolding undeclared
  unless-IsResolved name declared none e distinct =
      selected-IsResolved declared _ e (select-Selects name declared [] distinct)
  unless-IsResolved name declared (some argument) e distinct =
      let h = find-true _ dimension_arguments argument e in
      inl (argument, ground arith, ground arith)

  -- A call's arguments are resolved when every declared dimension has an accepted code, the caller's
  -- or its default, and no argument that the indicator does not declare was given; they are refused
  -- only for such an argument or for a code that is not accepted.
  pub resolve_dimensions-IsResolved :
      (name : String) (declared : List DimensionDefinition)
      → are_distinct (arguments_of declared) ≡ true
      → IsResolved declared (resolve_dimensions name declared args)
  unfolding resolve_dimensions
  resolve_dimensions-IsResolved name declared distinct =
      unless-IsResolved name declared _ refl distinct
