-- ===== src/Core/InformationOrder/Closure/Needs.antt =====
-- What a selection needs, as a relation: the specification of `_dependency_closure`.
use auditspec.Prelude.{String, List, Member}
use auditspec.Core.InformationOrder.Closure.{Mechanisms, requires_of}

-- The selection and what is reached from it by requirements.
pub data Needs (mechanisms : Mechanisms) (selected : List String) : String → Type 0 where
  start : {id : String} → Member id selected → Needs mechanisms selected id
  step :
      {id d : String}
      → Needs mechanisms selected id
      → Member d (requires_of mechanisms id)
      → Needs mechanisms selected d

-- A set that holds all requirements of its elements.
abbrev pub IsClosed : Mechanisms → List String → Type 0
IsClosed mechanisms s =
    (id : String) → Member id s → (d : String) → Member d (requires_of mechanisms id) → Member d s

-- A closed set that holds the selection holds all that the selection needs.
pub Needs-closed :
    {mechanisms : Mechanisms} {selected : List String} {id : String} (s : List String)
    → ((a : String) → Member a selected → Member a s)
    → IsClosed mechanisms s
    → Needs mechanisms selected id
    → Member id s
Needs-closed s h c (start m) = h _ m
Needs-closed s h c (step n m) = c _ (Needs-closed s h c n) _ m

pub Needs-mono :
    {mechanisms : Mechanisms} {selected other : List String} {id : String}
    → ((a : String) → Member a selected → Needs mechanisms other a)
    → Needs mechanisms selected id
    → Needs mechanisms other id
Needs-mono h (start m) = h _ m
Needs-mono h (step n m) = step (Needs-mono h n) m
