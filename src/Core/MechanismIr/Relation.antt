-- ===== src/Core/MechanismIr/Relation.antt =====
-- The dependency relation, its paths, and the mechanisms below which it ends.
use auditspec.Prelude.{String, List, ◌≡◌, Member}
use auditspec.Prelude.Result.{ok}
use auditspec.Core.MechanismIr.{Dependencies, required_by}

-- `a` requires `b`.
abbrev pub Requires : Dependencies → String → String → Type 0
Requires ds a b = (bs : List String) × (required_by ds a ≡ ok bs) × Member b bs

-- A path of at least one requirement.
pub data Reaches (ds : Dependencies) (a : String) : String → Type 0 where
  one : {b : String} → Requires ds a b → Reaches ds a b
  more : {b c : String} → Reaches ds a b → Requires ds b c → Reaches ds a c

pub Reaches-front :
    {ds : Dependencies} {a b c : String} → Requires ds a b → Reaches ds b c → Reaches ds a c
Reaches-front r (one s) = more (one r) s
Reaches-front r (more p s) = more (Reaches-front r p) s

-- Every path from here ends.
pub data Grounded (ds : Dependencies) : String → Type 0 where
  grounded : {a : String} → ((b : String) → Requires ds a b → Grounded ds b) → Grounded ds a

pub Grounded-below :
    {ds : Dependencies} {a b : String} → Reaches ds a b → Grounded ds a → Grounded ds b
Grounded-below (one r) (grounded h) = h _ r
Grounded-below (more p r) g = below (Grounded-below p g) r
  where
    below : {ds : Dependencies} {a b : String} → Grounded ds a → Requires ds a b → Grounded ds b
    below (grounded h) r = h _ r

-- The first step of a path, and the rest of it back to the start of a cycle.
first_step :
    {ds : Dependencies} {a c : String}
    → Reaches ds a c
    → (b : String) × Requires ds a b × ((e : String) → Requires ds c e → Reaches ds b e)
first_step (one {b} r) = (b, r, λ e s. one s)
first_step (more p s) = let (b, r, h) = first_step p in (b, r, λ e t. more (h _ s) t)

pub cycle-shift :
    {ds : Dependencies} {a : String}
    → Reaches ds a a
    → (b : String) × Requires ds a b × Reaches ds b b
cycle-shift p = let (b, r, h) = first_step p in (b, r, h b r)

-- There is no cycle where every path ends.
pub Grounded-acyclic : {ds : Dependencies} {a : String} → Grounded ds a → ¬ Reaches ds a a
Grounded-acyclic (grounded h) p = let (b, r, q) = cycle-shift p in Grounded-acyclic (h b r) q
