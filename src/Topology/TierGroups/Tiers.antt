-- ===== src/Topology/TierGroups/Tiers.antt =====
-- What a grouping by components determines: who shares a group, and that nothing but the addresses
-- and the relation matters.
use dra_driver_spyre.Prelude.{
  String, ◌≡◌, ◌↔◌, sym, ◌∙◌, ap, subst, none, some, inl, inr, Map, lookup, str_lt_total,
  Option-cases,
}
use dra_driver_spyre.Topology.TierGroups.Roots.{Connected, same, link, back, through}
use dra_driver_spyre.Topology.TierGroups.Grouping.{IsGrouping}

pub Connected-mono :
    {E F : String → String → Type 0}
    → ((a b : String) → E a b → F a b)
    → {a b : String} → Connected E a b
    → Connected F a b
Connected-mono h (same e) = same e
Connected-mono h (link {a} {b} e) = link (h a b e)
Connected-mono h (back c) = back (Connected-mono h c)
Connected-mono h (through c d) = through (Connected-mono h c) (Connected-mono h d)

same_value :
    (g : Map String) (a b : String) {r s : String}
    → lookup a g ≡ some r
    → lookup b g ≡ some s
    → lookup a g ≡ lookup b g
    → s ≡ r
same_value g a b h k e = cc

-- Two addresses have one group exactly when they are connected.
pub same_group_lem :
    {E : String → String → Type 0} {K : String → Type 0} {g : Map String}
    → IsGrouping E K g
    → (a b : String) → K a
    → K b
    → (lookup a g ≡ lookup b g) ↔ Connected E a b
same_group_lem {E} {K} {g} h a b ma mb =
    let (r, lr, _, cr, least_r) = h.representative a ma in
    let (s, ls, _, cs, least_s) = h.representative b mb in
    (
      λ e. through cr (subst (λ t. Connected E t b) (same_value g a b lr ls e) (back cs)),
      λ c.
          lr
          ∙ ap some (str_lt_total r s (least_s r (through (back c) cr)) (least_r s (through c cs)))
          ∙ sym ls,
    )

some_unlike_none :
    (a : String) (g : Map String) {r : String} → lookup a g ≡ none → lookup a g ≡ some r → ⊥
some_unlike_none a g h k = cc

-- The groups are fixed by the addresses and by the relation.
pub grouping_unique :
    {E F : String → String → Type 0} {K L : String → Type 0} {g g' : Map String}
    → IsGrouping E K g
    → IsGrouping F L g'
    → ((a : String) → K a ↔ L a)
    → ((a b : String) → E a b ↔ F a b)
    → (a : String) → lookup a g ≡ lookup a g'
grouping_unique {g = g} {g' = g'} h k members edges a = elim (Option-cases (lookup a g)) [
  | inl absent ↦ elim (Option-cases (lookup a g')) [
    | inl absent' ↦ absent ∙ sym absent'
    | inr (s, ls) ↦
        let (r, lr, _, _, _) = h.representative a ((members a).1 (k.only a s ls)) in
        absurd (some_unlike_none a g absent lr)
  ]
  | inr (u, lu) ↦
      let m = h.only a u lu in
      let (r, lr, _, cr, least_r) = h.representative a m in
      let (s, ls, _, cs, least_s) = k.representative a ((members a).0 m) in
      lr
      ∙ ap some (
          str_lt_total r s (least_s r (Connected-mono (λ x y. (edges x y).0) cr))
            (least_r s (Connected-mono (λ x y. (edges x y).1) cs)))
      ∙ sym ls
]

-- A grouping for one relation and domain is one for another that says the same.
pub IsGrouping-iff :
    {E F : String → String → Type 0} {K L : String → Type 0} {g : Map String}
    → ((a : String) → K a ↔ L a)
    → ((a b : String) → E a b ↔ F a b)
    → IsGrouping E K g
    → IsGrouping F L g
IsGrouping-iff members edges h = record {
  representative = λ a m.
      let (r, l, mr, c, least) = h.representative a ((members a).1 m) in
      (
        r,
        l,
        (members r).0 mr,
        Connected-mono (λ x y. (edges x y).0) c,
        λ b c'. least b (Connected-mono (λ x y. (edges x y).1) c'),
      );
  only = λ a r l. (members a).0 (h.only a r l);
}
