-- ===== src/Gates/Policy/Delegation.antt =====
-- `GatePolicy` of src/industrial_agent_runtime/gates.py: what its constructor checks, along a whole
-- chain of delegations.
use industrial_agent_runtime.Prelude.{
  String, ◌≡◌, ◌∙◌, refl, sym, ap, subst, true, false, ◌&&◌, Option, none, some, List, [], ◌∷◌,
  contains, subset, contains-subset, arith, Option-cases, inl, inr,
}
use industrial_agent_runtime.Contracts.{
  SideEffectClass, read, compute, simulate, propose, mutate, admin, eqb_class,
}
use industrial_agent_runtime.Decisions.{ok, >>=-eq-ok, ok-injective}
use industrial_agent_runtime.Gates.Policy.{
  Grants, GatePolicy, contains_class, subset_classes, same_names, check_child, check_parent,
  make_policy, delegate, grants_tool, all_grant_tool, allows_tool,
}

eq_of_eqb_class : (c d : SideEffectClass) → eqb_class c d ≡ true → c ≡ d
unfolding eqb_class
eq_of_eqb_class read d h = ground arith
eq_of_eqb_class compute d h = ground arith
eq_of_eqb_class simulate d h = ground arith
eq_of_eqb_class propose d h = ground arith
eq_of_eqb_class mutate d h = ground arith
eq_of_eqb_class admin d h = ground arith

contains-subset_classes :
    (cs ds : List SideEffectClass) (c : SideEffectClass)
    → subset_classes cs ds ≡ true
    → contains_class c cs ≡ true
    → contains_class c ds ≡ true
unfolding subset_classes contains_class
contains-subset_classes [] ds c h m = ground arith
contains-subset_classes (d ∷ cs) ds c h m =
    ground (arith, eq_of_eqb_class d c, contains-subset_classes cs ds c)

-- One level of authority lies within another: classes, tags and tools are a subset, every class that
-- needs approval above needs it below, and the simulation dimensions are the same names.
pub record IsWithin (c p : Grants) : Type 0 where
  pub classes :
      (x : SideEffectClass)
      → contains_class x c.granted_side_effect_classes ≡ true
      → contains_class x p.granted_side_effect_classes ≡ true
  pub tags :
      (n : String)
      → contains n c.granted_policy_tags ≡ true
      → contains n p.granted_policy_tags ≡ true
  pub tools : (n : String) → grants_tool c n ≡ true → grants_tool p n ≡ true
  pub approval :
      (x : SideEffectClass)
      → contains_class x p.approval_required_for ≡ true
      → contains_class x c.approval_required_for ≡ true
  pub dimensions :
      (n : String) → contains n c.simulation_dimensions ≡ contains n p.simulation_dimensions

same_names-contains :
    (ns ms : List String) → same_names ns ms ≡ true → (n : String) → contains n ns ≡ contains n ms
unfolding same_names
same_names-contains ns ms h n = ground (arith, contains-subset ns ms n, contains-subset ms ns n)

check_child-classes :
    (c p : Grants)
    → check_child c p ≡ ok tt
    → (subset_classes c.granted_side_effect_classes p.granted_side_effect_classes ≡ true)
      × (subset c.granted_policy_tags p.granted_policy_tags ≡ true)
      × (subset_classes p.approval_required_for c.approval_required_for ≡ true)
      × (same_names c.simulation_dimensions p.simulation_dimensions ≡ true)
unfolding check_child
check_child-classes c p h = ground arith

check_child-tools :
    (c p : Grants)
    → check_child c p ≡ ok tt
    → (tools : List String) × (parent_tools : List String) × (c.tool_allowlist ≡ some tools)
      × (p.tool_allowlist ≡ some parent_tools)
      × (subset tools parent_tools ≡ true)
unfolding check_child
check_child-tools c p h = elim (Option-cases c.tool_allowlist) [
  | inl absent ↦ absurd (ground (arith, absent))
  | inr (tools, present) ↦ elim (Option-cases p.tool_allowlist) [
    | inl absent ↦ absurd (ground (arith, absent, present))
    | inr (above, held) ↦ (tools, above, present, held, ground (arith, present, held))
  ]
]

check_child-IsWithin : (c p : Grants) → check_child c p ≡ ok tt → IsWithin c p
unfolding grants_tool
check_child-IsWithin c p h =
    let (classes, tags, approval, dimensions) = check_child-classes c p h in
    let (tools, above, e, f, within) = check_child-tools c p h in
    record {
      classes = λ x. contains-subset_classes _ _ x classes;
      tags = λ n. contains-subset _ _ n tags;
      tools = λ n g. ground (arith, e, f, contains-subset tools above n within);
      approval = λ x. contains-subset_classes _ _ x approval;
      dimensions = same_names-contains _ _ dimensions;
    }

-- A policy that the constructor has built: on every level no ADMIN and approval for MUTATE, and each
-- level within the one above it.
pub record IsBuilt (g : Grants) : Type 0 where
  pub no_admin : contains_class admin g.granted_side_effect_classes ≡ false
  pub mutate_approved : contains_class mutate g.approval_required_for ≡ true

abbrev pub IsChain : Grants → List Grants → Type 0
IsChain g [] = IsBuilt g
IsChain g (p ∷ ps) = IsBuilt g × IsWithin g p × IsChain p ps

abbrev pub IsSound : GatePolicy → Type 0
IsSound p = IsChain p.own p.ancestors

IsChain-IsBuilt : (g : Grants) (ps : List Grants) → IsChain g ps → IsBuilt g
IsChain-IsBuilt g [] c = c
IsChain-IsBuilt g (p ∷ ps) c = c.0

pub IsSound-IsBuilt : (p : GatePolicy) → IsSound p → IsBuilt p.own
IsSound-IsBuilt p s = IsChain-IsBuilt p.own p.ancestors s

make_policy-IsBuilt :
    (g : Grants) (p : Option GatePolicy) (c : GatePolicy)
    → make_policy g p ≡ ok c
    → IsBuilt g × (c.own ≡ g) × (check_parent g p ≡ ok c.ancestors)
unfolding make_policy
make_policy-IsBuilt g p c h = ground arith

delegated :
    (g : Grants) (p c : GatePolicy)
    → make_policy g (some p) ≡ ok c
    → IsBuilt c.own × IsWithin c.own p.own × (c.ancestors ≡ p.own ∷ p.ancestors)
unfolding check_parent
delegated g p c h =
    let (built, own, above) = make_policy-IsBuilt g (some p) c h in
    let (_, child, rest) = >>=-eq-ok (check_child g p.own) _ above in
    (rw own built, rw own (check_child-IsWithin g p.own (rw child refl)), ground (arith, rest))

IsWithin-trans : {a b c : Grants} → IsWithin a b → IsWithin b c → IsWithin a c
IsWithin-trans h k = record {
  classes = λ x m. k.classes x (h.classes x m);
  tags = λ n m. k.tags n (h.tags n m);
  tools = λ n m. k.tools n (h.tools n m);
  approval = λ x m. h.approval x (k.approval x m);
  dimensions = λ n. h.dimensions n ∙ k.dimensions n;
}

abbrev pub AllAbove : (Grants → Type 0) → List Grants → Type 0
AllAbove P [] = Unit
AllAbove P (g ∷ gs) = P g × AllAbove P gs

AllAbove-IsWithin :
    {c g : Grants} (ps : List Grants) → IsWithin c g → IsChain g ps → AllAbove (IsWithin c) ps
AllAbove-IsWithin [] w chain = tt
AllAbove-IsWithin (p ∷ ps) w chain =
    let up = IsWithin-trans w chain.1 in (up, AllAbove-IsWithin ps up chain.2)

-- The constructor builds sound policies, alone or below a sound parent.
pub make_policy-IsSound :
    (g : Grants) (p : Option GatePolicy) (c : GatePolicy)
    → ((q : GatePolicy) → p ≡ some q → IsSound q)
    → make_policy g p ≡ ok c
    → IsSound c
unfolding check_parent
make_policy-IsSound g none c above h =
    let (built, own, alone) = make_policy-IsBuilt g none c h in
    subst (IsChain c.own) (ok-injective alone) (rw own built)
make_policy-IsSound g (some p) c above h =
    let (built, within, chain) = delegated g p c h in
    subst (IsChain c.own) (sym chain) (built, within, above p refl)

-- A policy delegated from a sound one is sound, and its authority lies within that of every policy
-- above it, not only of its parent.
pub delegate-IsWithin_all :
    (p c : GatePolicy) (version : String) (tools : List String)
    (classes : Option (List SideEffectClass)) (tags : List String)
    → IsSound p
    → delegate p version tools classes tags ≡ ok c
    → IsSound c × AllAbove (IsWithin c.own) (p.own ∷ p.ancestors)
unfolding delegate
delegate-IsWithin_all p c version tools classes tags sound h =
    let (built, within, chain) = delegated _ p c h in
    (
      subst (IsChain c.own) (sym chain) (built, within, sound),
      (within, AllAbove-IsWithin p.ancestors within sound),
    )

-- A delegated policy allows only tools that it lists itself and that its parent allows.
pub delegate-allows_tool :
    (p c : GatePolicy) (version : String) (tools : List String)
    (classes : Option (List SideEffectClass)) (tags : List String) (name : String)
    → delegate p version tools classes tags ≡ ok c
    → allows_tool c name ≡ (contains name tools && allows_tool p name)
unfolding delegate allows_tool
delegate-allows_tool p c version tools classes tags name h =
    let (built, own, above) = make_policy-IsBuilt _ (some p) c h in
    let (_, _, chain) = delegated _ p c h in
    cc (ap (λ g. grants_tool g name) own, ap (λ gs. all_grant_tool gs name) chain)
