-- ===== src/Controllers/Owners.antt =====
-- Two resources of any of the six kinds that own one object.
use project_easter.Base.{
  ◌≡◌, ◌≢◌, ◌⊎◌, ◌==◌, refl, sym, ap, ◌∙◌, or_default, inl, inr, differ, eq_iff, Bool-cases, arith,
}
use mathlib.Core.Path.{subst}
use project_easter.Api.{ObjectMeta, NamespacedName, named}
use project_easter.Platform.{Library}
use project_easter.Reconciler.Contract.{Key}
use project_easter.Controllers.Ownership.{
  Kind, postgres, valkey, grafana, mariadb, rabbitmq, prometheus, ResourceOf, target_of, OwnedBy,
  target_kind, controller, controller-target_kind, owner_of_target,
}
use project_easter.Vendor.Separate.{
  cnpg-IsSeparate, valkey-IsSeparate, grafana-IsSeparate, mariadb-IsSeparate, rabbitmq-IsSeparate,
  prometheus-IsSeparate,
}

abbrev metadata_of : (i : Kind) → ResourceOf i → ObjectMeta
metadata_of postgres x = x.metadata
metadata_of valkey x = x.metadata
metadata_of grafana x = x.metadata
metadata_of mariadb x = x.metadata
metadata_of rabbitmq x = x.metadata
metadata_of prometheus x = x.metadata

abbrev pub place_of : (i : Kind) → ResourceOf i → NamespacedName
place_of i x = named (metadata_of i x).namespace (metadata_of i x).name

same_kind : (i j : Kind) → (i ≡ j) ⊎ (i ≢ j)
same_kind i j = elim (Bool-cases (target_kind i == target_kind j)) [
  | inl y ↦
      let p : target_kind i ≡ target_kind j =
        ground (arith, eq_iff (target_kind i) (target_kind j)) in
      inl (
        ap (or_default i)
          (sym (controller-target_kind i) ∙ (ap controller p ∙ controller-target_kind j)))
  | inr n ↦ inr (λ e. differ (target_kind i) (target_kind j) n (ap target_kind e))
]

module _ (l : Library) where
  one_place :
      (i : Kind) (x y : ResourceOf i) (k : Key)
      → OwnedBy l i x k
      → OwnedBy l i y k
      → place_of i x ≡ place_of i y
  one_place postgres x y k p q = cnpg-IsSeparate l _ _ k (x, refl, refl, p) (y, refl, refl, q)
  one_place valkey x y k p q = valkey-IsSeparate l _ _ k (x, refl, refl, p) (y, refl, refl, q)
  one_place grafana x y k p q = grafana-IsSeparate l _ _ k (x, refl, refl, p) (y, refl, refl, q)
  one_place mariadb x y k p q = mariadb-IsSeparate l _ _ k (x, refl, refl, p) (y, refl, refl, q)
  one_place rabbitmq x y k p q = rabbitmq-IsSeparate l _ _ k (x, refl, refl, p) (y, refl, refl, q)
  one_place prometheus x y k p q =
      prometheus-IsSeparate l _ _ k (x, refl, refl, p) (y, refl, refl, q)

  -- If two resources, each of any of the six kinds, own one object, then they are of the same kind, name
  -- and namespace, or they are of different kinds and the object is the target of neither of them.
  pub owners_of_object :
      (i j : Kind) (x : ResourceOf i) (y : ResourceOf j) (k : Key)
      → OwnedBy l i x k
      → OwnedBy l j y k
      → ((i ≡ j) × (place_of i x ≡ place_of j y))
        ⊎ ((i ≢ j) × (k ≢ target_of l i x) × (k ≢ target_of l j y))
  owners_of_object i j x y k p q = elim (same_kind i j) [
    | inl e ↦ inl (
      e,
      subst (λ j. (z : ResourceOf j) → OwnedBy l j z k → place_of i x ≡ place_of j z) e
          (λ z r. one_place i x z k p r) y q,
    )
    | inr n ↦ inr (
      n,
      (λ e. n (owner_of_target l i j x y (subst (OwnedBy l j y) e q))),
      (λ e. n (sym (owner_of_target l j i y x (subst (OwnedBy l i x) e p)))),
    )
  ]
