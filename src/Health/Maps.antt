-- ===== src/Health/Maps.antt =====
-- MapsEqual and UpdateHealths, by what they look up.
use dra_driver_spyre.Prelude.{
  ℕ, ◌≤◌, ◌<◌, String, Bool, true, false, ◌≡◌, refl, sym, ◌∙◌, inl, inr, ◌&&◌, none, some, List, [],
  ◌∷◌, lookup, insert, delete, has, length, eqb, IsUnique, insert-IsUnique, size-delete,
  lookup-insert, lookup-delete_ne, ◌==◌, eq_iff, arith, Bool-cases, Option-cases,
}
use dra_driver_spyre.Health.{
  Protocol, HealthState, Report, Healths, same_health, all_in, maps_equal, add_reports,
  current_device_map, update_healths,
}

-- `==` on the protocol's enums holds of equal values alone.
pub record IsExact (protocol : Protocol) : Type 0 where
  pub state : (s t : protocol.State) → protocol.same_state s t ≡ true → s ≡ t
  pub kind : (s t : protocol.Kind) → protocol.same_kind s t ≡ true → s ≡ t

module _ (protocol : Protocol) where
  current-IsUnique :
      (current : Healths protocol) (devices : List (Report protocol))
      → IsUnique current
      → IsUnique (add_reports protocol current devices)
  unfolding add_reports
  current-IsUnique current [] u = u
  current-IsUnique current ((a, h) ∷ rest) u =
      current-IsUnique (insert a h current) rest (insert-IsUnique a h current u)

  pub current_device_map-IsUnique :
      (devices : List (Report protocol)) → IsUnique (current_device_map protocol devices)
  unfolding current_device_map
  current_device_map-IsUnique devices = current-IsUnique [] devices tt

  -- What UpdateHealths leaves under an address: the reported health of a device that `healths` has.
  pub lookup-update_healths :
      (info healths : Healths protocol) (a : String)
      → IsUnique info
      → lookup a (update_healths protocol info healths) ≡ (elim (lookup a healths) [
        | none ↦ none
        | some old ↦ elim (lookup a info) [ none ↦ some old | some new ↦ some new ]
      ])
  unfolding lookup update_healths has
  lookup-update_healths [] healths a u = elim (Option-cases (lookup a healths)) [
    | inl e ↦ rw e refl
    | inr (h, e) ↦ rw e refl
  ]
  lookup-update_healths ((k, v) ∷ rest) healths a (absent, u) = ground (
    arith,
    lookup-update_healths rest (insert k v healths) a u,
    lookup-update_healths rest healths a u,
    lookup-insert k a v healths,
    eq_iff k a,
  )

both : (x y : Bool) → (x && y) ≡ true → (x ≡ true) × (y ≡ true)
both true true h = (refl, refl)
both true false h = cc
both false y h = cc

none-true : {x : Bool} → x ≡ false → x ≡ true → ⊥
none-true e h = cc

module _ (protocol : Protocol) where
  -- What the loop of MapsEqual says of its first entry, and of the rest.
  all_in-cons :
      (k : String) (v : HealthState protocol) (a b : Healths protocol)
      → all_in protocol ((k, v) ∷ a) b ≡ true
      → ((w : HealthState protocol) × (lookup k b ≡ some w) × (same_health protocol v w ≡ true))
        × (all_in protocol a b ≡ true)
  unfolding all_in
  all_in-cons k v a b h = elim (Option-cases (lookup k b)) [
    | inl absent ↦ absurd (none-true refl (rw (all_in, absent) at h))
    | inr (w, there) ↦
        let (same, rest) =
          both (same_health protocol v w) (all_in protocol a b) (rw (all_in, there) at h) in
        ((w, there, same), rest)
  ]

  all_in-delete :
      (k : String) (a b : Healths protocol)
      → lookup k a ≡ none
      → all_in protocol a b ≡ true
      → all_in protocol a (delete k b) ≡ true
  unfolding all_in lookup
  all_in-delete k [] b absent h = refl
  all_in-delete k ((j, v) ∷ a) b absent h = elim (Bool-cases (j == k)) [
    | inl e ↦ absurd (some-none (rw e at absent))
    | inr ne ↦
        let ((w, there, same), rest) = all_in-cons j v a b h in
        let apart = λ (q : k ≡ j). none-true ne ((eq_iff j k).1 (sym q)) in
        let later = all_in-delete k a b (rw ne at absent) rest in
        rw (all_in, lookup-delete_ne k j b apart ∙ there, same, later) refl
  ]
    where
      some-none : {x : HealthState protocol} → some x ≡ none → ⊥
      some-none h = cc

  -- A map whose entries all stand in another is not the longer one.
  all_in_le :
      (a b : Healths protocol) → IsUnique a → all_in protocol a b ≡ true → length a ≤ length b
  all_in_le [] b u h = omega arith
  all_in_le ((k, v) ∷ a) b (absent, u) h =
      let ((w, there, same), rest) = all_in-cons k v a b h in
      omega (
        arith,
        all_in_le a (delete k b) u (all_in-delete k a b absent rest),
        size-delete k w b there,
      )

module _ (protocol : Protocol) (exact : IsExact protocol) where
  same_health-path : (a b : HealthState protocol) → same_health protocol a b ≡ true → a ≡ b
  unfolding same_health
  same_health-path a b h =
      let (s, k) =
        both (protocol.same_state a.state b.state) (protocol.same_kind a.device_type b.device_type)
          h in
      cc (exact.state a.state b.state s, exact.kind a.device_type b.device_type k)

  all_in_lem :
      (a b : Healths protocol) (k : String) (v : HealthState protocol)
      → all_in protocol a b ≡ true
      → lookup k a ≡ some v
      → lookup k b ≡ some v
  unfolding lookup
  all_in_lem [] b k v h e = cc
  all_in_lem ((j, x) ∷ a) b k v h e =
      let ((w, there, same), rest) = all_in-cons protocol j x a b h in
      elim (Bool-cases (j == k)) [
        | inl q ↦
            let e' : some x ≡ some v = (rw q at e) in
            let path : j ≡ k = (eq_iff j k).0 q in cc (e', path, there, same_health-path x w same)
        | inr ne ↦ all_in_lem a b k v rest (rw ne at e)
      ]

  -- Where MapsEqual says so, the maps have the same entries.
  pub maps_equal_lem :
      (a b : Healths protocol) (k : String)
      → IsUnique a
      → maps_equal protocol a b ≡ true
      → lookup k a ≡ lookup k b
  unfolding maps_equal
  maps_equal_lem a b k u h =
      let (size, inside) = both (eqb (length a) (length b)) (all_in protocol a b) h in
      elim (Option-cases (lookup k a)) [
        | inr (v, e) ↦ e ∙ sym (all_in_lem a b k v inside e)
        | inl absent ↦ elim (Option-cases (lookup k b)) [
          | inl missing ↦ absent ∙ sym missing
          | inr (w, there) ↦ absurd (
              too_long (length a) (length b) (length (delete k b)) size
                (all_in_le protocol a (delete k b) u (all_in-delete protocol k a b absent inside))
                (size-delete k w b there))
        ]
      ]
    where
      too_long : (x y z : ℕ) → eqb x y ≡ true → x ≤ z → z < y → ⊥
      too_long x y z e l m = ground arith
