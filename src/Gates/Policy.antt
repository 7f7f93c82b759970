-- ===== src/Gates/Policy.antt =====
-- `GatePolicy` of src/industrial_agent_runtime/gates.py: the authority that the application grants,
-- and its delegation. A policy holds its parent; here the grants of the ancestors stand in a list,
-- the parent's first. A set is a list of its members. The types of the members are taken as given.
pub mod Delegation
use industrial_agent_runtime.Prelude.{
  String, ◌==◌, Bool, true, false, not, ◌&&◌, ◌||◌, Option, none, some, List, [], ◌∷◌, contains,
  subset,
}
use industrial_agent_runtime.Contracts.{SideEffectClass, read, compute, mutate, admin, eqb_class}
use industrial_agent_runtime.Decisions.{Result, ok, err, value_error, refuse_if, ◌>>=◌, ◌>>◌}

abbrev pub standard_dimensions : List String
standard_dimensions = "model_calls" ∷ "tool_calls" ∷ "subagents" ∷ "steps" ∷ []

unfoldable pub contains_class : SideEffectClass → List SideEffectClass → Bool
contains_class c [] = false
contains_class c (d ∷ ds) = eqb_class d c || contains_class c ds

unfoldable pub subset_classes : List SideEffectClass → List SideEffectClass → Bool
unfolding contains_class
subset_classes [] ds = true
subset_classes (c ∷ cs) ds = contains_class c ds && subset_classes cs ds

pub record Grants : Type 0 where
  pub policy_version : String
  pub granted_side_effect_classes : List SideEffectClass
  pub granted_policy_tags : List String
  pub simulation_dimensions : List String
  pub approval_required_for : List SideEffectClass
  pub tool_allowlist : Option (List String)

pub record GatePolicy : Type 0 where
  pub own : Grants
  pub open own use *
  pub ancestors : List Grants

unfoldable pub parent : GatePolicy → Option GatePolicy
parent p = elim p.ancestors [ [] ↦ none | g ∷ gs ↦ some (record { own = g; ancestors = gs }) ]

unfoldable pub all_nonempty : List String → Bool
all_nonempty [] = true
all_nonempty (n ∷ ns) = not (n == "") && all_nonempty ns

-- Whether two collections share a name.
unfoldable pub overlaps : List String → List String → Bool
overlaps [] ms = false
overlaps (n ∷ ns) ms = contains n ms || overlaps ns ms

unfoldable pub same_names : List String → List String → Bool
same_names ns ms = subset ns ms && subset ms ns

-- What the constructor asks of a child: its tools, classes and tags only narrow, its approval only
-- widens, and the simulation dimensions are the parent's.
unfoldable pub check_child : Grants → Grants → Result (Unit {0})
unfolding same_names
check_child c p = elim c.tool_allowlist [
  | none ↦ err value_error
  | some tools ↦ elim p.tool_allowlist [
    | none ↦ err value_error
    | some parent_tools ↦ do
      refuse_if
          (not (subset_classes c.granted_side_effect_classes p.granted_side_effect_classes)
            || not (subset c.granted_policy_tags p.granted_policy_tags)
            || not (subset tools parent_tools)
            || not (subset_classes p.approval_required_for c.approval_required_for))
          value_error
      refuse_if (not (same_names c.simulation_dimensions p.simulation_dimensions)) value_error
  ]
]

unfoldable pub check_parent : Grants → Option GatePolicy → Result (List Grants)
unfolding check_child
check_parent g none = ok []
check_parent g (some p) = do check_child g p.own; ok (p.own ∷ p.ancestors)

-- The constructor, with `__post_init__`.
unfoldable pub make_policy : Grants → Option GatePolicy → Result GatePolicy
make_policy g p = do
  refuse_if (g.policy_version == "") value_error
  refuse_if (contains_class admin g.granted_side_effect_classes) value_error
  refuse_if (not (contains_class mutate g.approval_required_for)) value_error
  refuse_if (not (all_nonempty g.granted_policy_tags)) value_error
  refuse_if (not (all_nonempty g.simulation_dimensions)) value_error
  refuse_if (overlaps g.simulation_dimensions standard_dimensions) value_error
  above ← check_parent g p
  ok (record { own = g; ancestors = above })

-- `delegate`, where `none` for the classes keeps those of the parent.
unfoldable pub delegate :
    GatePolicy
    → String
    → List String
    → Option (List SideEffectClass)
    → List String
    → Result GatePolicy
unfolding make_policy
delegate p version tools classes tags =
    make_policy
      (record {
        policy_version = version;
        granted_side_effect_classes = elim classes [
          | none ↦ p.granted_side_effect_classes
          | some cs ↦ cs
        ];
        granted_policy_tags = tags;
        simulation_dimensions = p.simulation_dimensions;
        approval_required_for = p.approval_required_for;
        tool_allowlist = some tools;
      })
      (some p)

unfoldable pub grants_tool : Grants → String → Bool
grants_tool g name = elim g.tool_allowlist [ none ↦ true | some tools ↦ contains name tools ]

unfoldable pub all_grant_tool : List Grants → String → Bool
unfolding grants_tool
all_grant_tool [] name = true
all_grant_tool (g ∷ gs) name = grants_tool g name && all_grant_tool gs name

-- The walk up the chain of parents.
unfoldable pub allows_tool : GatePolicy → String → Bool
unfolding all_grant_tool
allows_tool p name = all_grant_tool (p.own ∷ p.ancestors) name

abbrev pub default_policy : GatePolicy
default_policy = record {
  own = record {
    policy_version = "runtime-default-v0";
    granted_side_effect_classes = read ∷ compute ∷ [];
    granted_policy_tags = [];
    simulation_dimensions = [];
    approval_required_for = mutate ∷ [];
    tool_allowlist = none;
  };
  ancestors = [];
}
