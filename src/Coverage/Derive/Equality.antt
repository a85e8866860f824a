-- ===== src/Coverage/Derive/Equality.antt =====
-- `!=` on the values of a projection.
use signal_observatory.Prelude.{Bool, true, false, ◌≡◌, arith, ℕ_discrete}
use signal_observatory.Coverage.Derive.{CoverageProjection}

pub projection_discrete : Discrete CoverageProjection
projection_discrete = hlevel (ℕ_discrete)

unfoldable pub projections_equal : CoverageProjection → CoverageProjection → Bool
projections_equal a b = elim (projection_discrete a b) [ yes _ ↦ true | no _ ↦ false ]

pub projections_equal_lem : (a b : CoverageProjection) → projections_equal a b ≡ true → a ≡ b
unfolding projections_equal
projections_equal_lem a b h = of_decision (projection_discrete a b) h
  where
    of_decision : (t : Dec (a ≡ b)) → elim t [ yes _ ↦ true | no _ ↦ false ] ≡ true → a ≡ b
    of_decision (yes p) q = p
    of_decision (no n) q = cc

pub projections_equal_self : (a : CoverageProjection) → projections_equal a a ≡ true
unfolding projections_equal
projections_equal_self a = ground arith
